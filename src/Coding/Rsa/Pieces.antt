-- ===== src/Coding/Rsa/Pieces.antt =====
-- CXFastDataParserHandle.cpp: RSADecryptData undoes RSAEncryptData, piece by piece.
use konsan_net.Prelude.{
  ℕ, zero, suc, ◌+◌, ◌-◌, ◌<◌, ◌≤◌, ◌≡◌, refl, sym, ap, ◌∙◌, false, some, List, [], ◌∷◌, ◌++◌,
  length, take, drop, ltb, arith, take-drop, take-append, drop-append, length-append, append_assoc,
  append-nil,
}
use konsan_net.Coding.Ciphers.{RsaEncryptor, RsaDecryptor, RsaPair, Ciphers}
use konsan_net.Coding.Rsa.{
  RsaResult, encrypt_pieces, decrypt_pieces, rsa_encrypt_data, rsa_decrypt_data,
}

module _ (e : RsaEncryptor) (d : RsaDecryptor) (pair : RsaPair e d) where
  -- One block at the front is decrypted.
  pub decrypt_block :
      (fuel capacity : ℕ) (p c later output : List ℕ)
      → e.encrypt p ≡ some c
      → length output + d.max_plaintext_length d.fixed_ciphertext_length ≤ capacity
      → decrypt_pieces (suc fuel) d capacity (c ++ later) output
        ≡ decrypt_pieces fuel d capacity later (output ++ p)
  unfolding decrypt_pieces
  decrypt_block fuel capacity p [] later output run room =
      let n = pair.size p [] run in let block = pair.block in absurd (omega arith)
  decrypt_block fuel capacity p (b ∷ bs) later output run room =
      let n = pair.size p (b ∷ bs) run in
      let fits = pair.room p (b ∷ bs) run in
      let whole : length (b ∷ bs) ≡ d.fixed_ciphertext_length = n in
      let enough : ltb (capacity - length output) (d.max_plaintext_length d.fixed_ciphertext_length)
          ≡ false =
        ground arith in
      let short : ltb (d.max_plaintext_length d.fixed_ciphertext_length) (length p) ≡ false =
        ground arith in
      let front = take-append d.fixed_ciphertext_length (b ∷ bs) later n in
      let rest = drop-append d.fixed_ciphertext_length (b ∷ bs) later n in
      rw (front, n, enough, pair.decrypts p (b ∷ bs) run) (rw (front, n, short, rest) refl)

  nothing_left :
      (more room : ℕ) (before : List ℕ)
      → 0 < more
      → decrypt_pieces more d room [] before ≡ RsaResult.encoded (before ++ [])
  unfolding decrypt_pieces
  nothing_left zero room before h = absurd (omega arith)
  nothing_left (suc more) room before h = ap (λ l. RsaResult.encoded l) (sym (append-nil before))

  pub encrypt_block :
      (fuel capacity b : ℕ) (bs output result : List ℕ)
      → encrypt_pieces (suc fuel) e capacity (b ∷ bs) output ≡ RsaResult.encoded result
      → (c : List ℕ) × ((e.encrypt (take e.fixed_max_plaintext_length (b ∷ bs)) ≡ some c)
          × (encrypt_pieces fuel e capacity
                (drop e.fixed_max_plaintext_length (b ∷ bs))
                (output ++ c)
              ≡ RsaResult.encoded result))
  unfolding encrypt_pieces
  encrypt_block fuel capacity b bs output result run = ground arith

  first_block :
      (piece c blocks later : List ℕ)
      → e.encrypt piece ≡ some c
      → ((room more : ℕ) (before : List ℕ)
          → length before + length later + d.max_plaintext_length d.fixed_ciphertext_length ≤ room
          → length blocks < more
          → decrypt_pieces more d room blocks before ≡ RsaResult.encoded (before ++ later))
      → (room more : ℕ) (before : List ℕ) → {total : ℕ} → length (piece ++ later) ≡ total
      → length before + total + d.max_plaintext_length d.fixed_ciphertext_length ≤ room
      → length (c ++ blocks) < more
      → decrypt_pieces more d room (c ++ blocks) before
        ≡ RsaResult.encoded (before ++ (piece ++ later))
  first_block piece c blocks later one back room zero before all fits enough = absurd (omega arith)
  first_block piece c blocks later one back room (suc more) before all fits enough =
      let n = length-append piece later in
      let m = length-append c blocks in
      let k = length-append before piece in
      let size = pair.size piece c one in
      let block = pair.block in
      decrypt_block more room piece c blocks before one (omega arith)
      ∙ back room more (before ++ piece) (omega arith) (omega arith)
      ∙ ap (λ l. RsaResult.encoded l) (append_assoc before piece later)

  -- What the encryption adds to the output, the decryption adds to the input.
  pub decrypt_pieces-encrypt_pieces :
      (fuel capacity : ℕ) (input output result : List ℕ)
      → encrypt_pieces fuel e capacity input output ≡ RsaResult.encoded result
      → (blocks : List ℕ) × ((result ≡ output ++ blocks)
          × ((room more : ℕ) (before : List ℕ)
              → length before + length input + d.max_plaintext_length d.fixed_ciphertext_length
                ≤ room
              → length blocks < more
              → decrypt_pieces more d room blocks before ≡ RsaResult.encoded (before ++ input)))
  unfolding encrypt_pieces decrypt_pieces
  decrypt_pieces-encrypt_pieces zero capacity input output result run = absurd (cc)
  decrypt_pieces-encrypt_pieces (suc fuel) capacity [] output result run =
      let same : output ≡ result = cc in
      (
        [],
        (
          sym same ∙ sym (append-nil output),
          λ room more before fits enough. nothing_left more room before enough,
        ),
      )
  decrypt_pieces-encrypt_pieces (suc fuel) capacity (b ∷ bs) output result run =
      let n = e.fixed_max_plaintext_length in
      let (c, (one, rest)) = encrypt_block fuel capacity b bs output result run in
      let (blocks, (whole, back)) =
        decrypt_pieces-encrypt_pieces fuel capacity (drop n (b ∷ bs)) (output ++ c) result rest in
      (
        c ++ blocks,
        (
          whole ∙ append_assoc output c blocks,
          λ room more before fits enough.
              first_block (take n (b ∷ bs)) c blocks (drop n (b ∷ bs)) one back room more before
                (ap {A = List ℕ} (λ l. length l) (take-drop n (b ∷ bs))) fits enough
              ∙ ap (λ l. RsaResult.encoded (before ++ l)) (take-drop n (b ∷ bs)),
        ),
      )

-- RSADecryptData of what RSAEncryptData made is the data, where the output buffer has room for it and for
-- one more piece of the largest size.
pub rsa_decrypt_data-rsa_encrypt_data :
    (c : Ciphers) (public private : List ℕ) (e : RsaEncryptor) (d : RsaDecryptor)
    (input blocks : List ℕ) (capacity room : ℕ)
    → RsaPair e d
    → c.public_key public ≡ some e
    → c.private_key private ≡ some d
    → length input + d.max_plaintext_length d.fixed_ciphertext_length ≤ room
    → rsa_encrypt_data c public input capacity ≡ RsaResult.encoded blocks
    → rsa_decrypt_data c private blocks room ≡ RsaResult.encoded input
unfolding rsa_encrypt_data rsa_decrypt_data
rsa_decrypt_data-rsa_encrypt_data c public private e d input blocks capacity room pair opens reads
      fits run =
    let loops : rsa_encrypt_data c public input capacity
        ≡ encrypt_pieces (suc (length input)) e capacity input [] =
      rw (opens, rsa_encrypt_data) refl in
    let (made, (same, back)) =
      decrypt_pieces-encrypt_pieces e d pair (suc (length input)) capacity input [] blocks
        (sym loops ∙ run) in
    let decodes : rsa_decrypt_data c private blocks room
        ≡ decrypt_pieces (suc (length blocks)) d room blocks [] =
      rw (reads, rsa_decrypt_data) refl in
    decodes
    ∙ ap (λ l. decrypt_pieces (suc (length l)) d room l []) same
    ∙ back room (suc (length made)) [] (omega arith) (omega arith)
