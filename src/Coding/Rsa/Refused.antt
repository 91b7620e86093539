-- ===== src/Coding/Rsa/Refused.antt =====
-- CXFastDataParserHandle.cpp, RSADecryptData: each piece asks for room for the largest piece.
use konsan_net.Prelude.{
  ℕ, zero, suc, ◌+◌, ◌-◌, ◌<◌, ◌≤◌, ◌≡◌, refl, sym, ap, ◌∙◌, true, some, List, [], ◌∷◌, ◌++◌,
  length, take, drop, ltb, Bool-cases, inl, inr, arith, take-append, length-append, length-drop,
  length-take, append_assoc,
}
use konsan_net.Coding.Ciphers.{RsaEncryptor, RsaDecryptor, RsaPair, Ciphers}
use konsan_net.Coding.Rsa.{
  RsaResult, encrypt_pieces, decrypt_pieces, rsa_encrypt_data, rsa_decrypt_data,
}
use konsan_net.Coding.Rsa.Pieces.{decrypt_block, encrypt_block, decrypt_pieces-encrypt_pieces}

module _ (e : RsaEncryptor) (d : RsaDecryptor) (pair : RsaPair e d) where
  block_refused :
      (fuel room : ℕ) (p c later output : List ℕ)
      → e.encrypt p ≡ some c
      → length output ≤ room
      → room < length output + d.max_plaintext_length d.fixed_ciphertext_length
      → decrypt_pieces (suc fuel) d room (c ++ later) output ≡ RsaResult.no_room
  unfolding decrypt_pieces
  block_refused fuel room p [] later output run within full =
      let n = pair.size p [] run in let block = pair.block in absurd (omega arith)
  block_refused fuel room p (b ∷ bs) later output run within full =
      let n = pair.size p (b ∷ bs) run in
      let fits = pair.room p (b ∷ bs) run in
      let none_left : ltb (room - length output) (d.max_plaintext_length d.fixed_ciphertext_length)
          ≡ true =
        ground arith in
      rw (take-append d.fixed_ciphertext_length (b ∷ bs) later n, n, none_left) refl

  -- Two blocks at the front, of which the second has no room.
  two_blocks :
      (more room : ℕ) (p q c1 c2 later : List ℕ)
      → e.encrypt p ≡ some c1
      → e.encrypt q ≡ some c2
      → room < length p + d.max_plaintext_length d.fixed_ciphertext_length
      → 1 < more
      → decrypt_pieces more d room (c1 ++ (c2 ++ later)) [] ≡ RsaResult.no_room
  two_blocks zero room p q c1 c2 later one two full enough = absurd (omega arith)
  two_blocks (suc zero) room p q c1 c2 later one two full enough = absurd (omega arith)
  two_blocks (suc (suc more)) room p q c1 c2 later one two full enough =
      elim (Bool-cases (ltb room (d.max_plaintext_length d.fixed_ciphertext_length))) [
        | inl small ↦
            block_refused (suc more) room p c1 (c2 ++ later) [] one (omega arith) (ground arith)
        | inr first ↦
            decrypt_block e d pair (suc more) room p c1 (c2 ++ later) [] one (ground arith)
            ∙ block_refused more room q c2 later p two
                (let fits = pair.room p c1 one in ground arith) full
      ]

  second_refused :
      (p c1 : List ℕ)
      → e.encrypt p ≡ some c1
      → length p ≡ e.fixed_max_plaintext_length
      → (fuel capacity room : ℕ) (input blocks : List ℕ) → 0 < length input
      → room < e.fixed_max_plaintext_length + d.max_plaintext_length d.fixed_ciphertext_length
      → encrypt_pieces fuel e capacity input c1 ≡ RsaResult.encoded blocks
      → (more : ℕ) → length blocks < more
      → decrypt_pieces more d room blocks [] ≡ RsaResult.no_room
  unfolding encrypt_pieces
  second_refused p c1 one size fuel capacity room [] blocks some_data full run more enough =
      absurd (omega arith)
  second_refused p c1 one size zero capacity room (b ∷ bs) blocks some_data full run more enough =
      absurd (cc)
  second_refused p c1 one size (suc fuel) capacity room (b ∷ bs) blocks some_data full run more
        enough =
      let n = e.fixed_max_plaintext_length in
      let (c2, (two, rest)) = encrypt_block e d pair fuel capacity b bs c1 blocks run in
      let (later, (same, back)) =
        decrypt_pieces-encrypt_pieces e d pair fuel capacity (drop n (b ∷ bs)) (c1 ++ c2) blocks
          rest in
      let whole = same ∙ append_assoc c1 c2 later in
      let l = ap {A = List ℕ} (λ xs. length xs) whole in
      let l1 = length-append c1 (c2 ++ later) in
      let s1 = pair.size p c1 one in
      let block = pair.block in
      ap (λ xs. decrypt_pieces more d room xs []) whole
      ∙ two_blocks more room p (take n (b ∷ bs)) c1 c2 later one two (omega arith) (omega arith)

  pieces_refused :
      (fuel capacity room b : ℕ) (bs blocks : List ℕ)
      → e.fixed_max_plaintext_length < length (b ∷ bs)
      → room < e.fixed_max_plaintext_length + d.max_plaintext_length d.fixed_ciphertext_length
      → encrypt_pieces fuel e capacity (b ∷ bs) [] ≡ RsaResult.encoded blocks
      → (more : ℕ) → length blocks < more
      → decrypt_pieces more d room blocks [] ≡ RsaResult.no_room
  unfolding encrypt_pieces
  pieces_refused zero capacity room b bs blocks long full run more enough = absurd (cc)
  pieces_refused (suc fuel) capacity room b bs blocks long full run more enough =
      let n = e.fixed_max_plaintext_length in
      let (c1, (one, rest)) = encrypt_block e d pair fuel capacity b bs [] blocks run in
      let left = length-drop n (b ∷ bs) in
      let size = length-take n (b ∷ bs) (omega arith) in
      second_refused (take n (b ∷ bs)) c1 one size fuel capacity room (drop n (b ∷ bs)) blocks
        (omega arith) full rest more enough

-- Where the data has more than one piece, RSADecryptData refuses what RSAEncryptData made for want of
-- room unless the output buffer has room for a whole piece and for a piece of the largest size.
pub rsa_decrypt_data-refused :
    (c : Ciphers) (public private : List ℕ) (e : RsaEncryptor) (d : RsaDecryptor) (b : ℕ)
    (bs blocks : List ℕ) (capacity room : ℕ)
    → RsaPair e d
    → c.public_key public ≡ some e
    → c.private_key private ≡ some d
    → e.fixed_max_plaintext_length < length (b ∷ bs)
    → room < e.fixed_max_plaintext_length + d.max_plaintext_length d.fixed_ciphertext_length
    → rsa_encrypt_data c public (b ∷ bs) capacity ≡ RsaResult.encoded blocks
    → rsa_decrypt_data c private blocks room ≡ RsaResult.no_room
unfolding rsa_encrypt_data rsa_decrypt_data
rsa_decrypt_data-refused c public private e d b bs blocks capacity room pair opens reads long full
      run =
    let fuel = suc (length (b ∷ bs)) in
    let loops : rsa_encrypt_data c public (b ∷ bs) capacity
        ≡ encrypt_pieces fuel e capacity (b ∷ bs) [] =
      rw (opens, rsa_encrypt_data) refl in
    let decodes : rsa_decrypt_data c private blocks room
        ≡ decrypt_pieces (suc (length blocks)) d room blocks [] =
      rw (reads, rsa_decrypt_data) refl in
    decodes
    ∙ pieces_refused e d pair fuel capacity room b bs blocks long full (sym loops ∙ run)
        (suc (length blocks)) (omega arith)
