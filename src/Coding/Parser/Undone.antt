-- ===== src/Coding/Parser/Undone.antt =====
-- CXFastDataParserHandle.cpp: ParseData of what PrepareData made.
use konsan_net.Prelude.{ℕ, ◌+◌, ◌<◌, ◌≤◌, ◌≡◌, refl, ◌≢◌, ◌⊎◌, some, List, length, inl, inr, arith}
use konsan_net.Coding.Ciphers.{Ciphers, RsaDecryptor}
use konsan_net.Coding.Parser.{
  Keys, Parsed, rsa_pkcs1v15, blowfish, gzip, snappy, zlib, compress_data, encrypt_data, parsed,
  prepare_data, parse_data,
}
use konsan_net.Coding.Parser.Steps.{
  Undoes, eax_tag, uncompress_data-compress_data, decrypt_data-encrypt_data,
}

-- The types that ParseData undoes: none, or a known one. RSA_OAEP is not among them.
pub record Known (encrypt compress : ℕ) : Type 0 where
  pub encrypts : encrypt ≢ 0 → (encrypt ≡ rsa_pkcs1v15) ⊎ (encrypt ≡ blowfish)
  pub compresses : compress ≢ 0 → (compress ≡ gzip) ⊎ ((compress ≡ snappy) ⊎ (compress ≡ zlib))

-- A step's data leaves room for a tag where it is encrypted to `dest` bytes, and for one more piece where
-- it is decrypted to `room` bytes.
pub record Roomy (d : RsaDecryptor) (input : List ℕ) (dest room : ℕ) : Type 0 where
  pub some_data : 0 < length input
  pub tag : length input + eax_tag ≤ dest
  pub piece : length input + d.max_plaintext_length d.fixed_ciphertext_length ≤ room

-- A step returned data, or it did not.
abbrev NoData : Parsed → Type 0
NoData p = (p ≡ Parsed.failed) ⊎ ((p ≡ Parsed.overrun) ⊎ ((n : ℕ) × (p ≡ Parsed.unwritten n)))

Parsed-cases : (p : Parsed) → ((out : List ℕ) × (p ≡ Parsed.returned out)) ⊎ NoData p
Parsed-cases Parsed.failed = inr (inl refl)
Parsed-cases (Parsed.returned out) = inl (out, refl)
Parsed-cases (Parsed.unwritten n) = inr (inr (inr (n, refl)))
Parsed-cases Parsed.overrun = inr (inr (inl refl))

-- The ways in which PrepareData returns: encrypted alone, compressed alone, or compressed and then
-- encrypted.
module _ (c : Ciphers) (k : Keys) (encrypt compress : ℕ) (input out : List ℕ) (dest cache : ℕ) where
  abbrev OneStep : Type 0
  OneStep =
      ((compress ≡ 0) × (encrypt ≢ 0) × (encrypt_data c k encrypt input dest ≡ some out))
      ⊎ ((compress ≢ 0)
          × (encrypt ≡ 0)
          × (compress_data c compress input dest ≡ Parsed.returned out))

  abbrev TwoSteps : List ℕ → Type 0
  TwoSteps packed =
      (compress ≢ 0) × (encrypt ≢ 0) × (encrypt_data c k encrypt packed dest ≡ some out)

  prepare_data-steps :
      (packed : List ℕ)
      → compress_data c compress input cache ≡ Parsed.returned packed
      → prepare_data c k encrypt compress input dest cache ≡ Parsed.returned out
      → OneStep ⊎ TwoSteps packed
  unfolding prepare_data parsed
  prepare_data-steps packed e run = ground arith

  prepare_data-OneStep :
      NoData (compress_data c compress input cache)
      → prepare_data c k encrypt compress input dest cache ≡ Parsed.returned out
      → OneStep
  unfolding prepare_data parsed
  prepare_data-OneStep (inl e) run = ground arith
  prepare_data-OneStep (inr (inl e)) run = ground arith
  prepare_data-OneStep (inr (inr (n, e))) run = ground arith

module _ (c : Ciphers) (k j : Keys) (u : Undoes c k j) (encrypt compress : ℕ) where
  parse_data-OneStep :
      (input out : List ℕ) (dest cache dest_peer cache_peer : ℕ)
      → Known encrypt compress
      → Roomy u.decryptor input dest dest_peer
      → OneStep c k encrypt compress input out dest cache
      → parse_data c j encrypt compress out dest_peer cache_peer ≡ Parsed.returned input
  unfolding parse_data parsed
  parse_data-OneStep input out dest cache dest_peer cache_peer known roomy
        (inl (plain, coded, made)) =
      let back =
        decrypt_data-encrypt_data c k j u input out dest dest_peer roomy.some_data roomy.piece
          roomy.tag encrypt (known.encrypts coded) made in
      ground arith
  parse_data-OneStep input out dest cache dest_peer cache_peer known roomy
        (inr (packs, plain, made)) =
      let piece = roomy.piece in
      let back =
        uncompress_data-compress_data c k j u input dest_peer roomy.some_data (omega arith) compress
          dest out (known.compresses packs) made in
      ground arith

  parse_data-TwoSteps :
      (input packed out : List ℕ) (dest cache dest_peer cache_peer : ℕ)
      → Known encrypt compress
      → Roomy u.decryptor input dest dest_peer
      → Roomy u.decryptor packed dest cache_peer
      → compress_data c compress input cache ≡ Parsed.returned packed
      → TwoSteps c k encrypt compress input out dest cache packed
      → parse_data c j encrypt compress out dest_peer cache_peer ≡ Parsed.returned input
  unfolding parse_data parsed
  parse_data-TwoSteps input packed out dest cache dest_peer cache_peer known roomy fits p
        (packs, coded, made) =
      let piece = roomy.piece in
      let back =
        decrypt_data-encrypt_data c k j u packed out dest cache_peer fits.some_data fits.piece
          fits.tag encrypt (known.encrypts coded) made in
      let again =
        uncompress_data-compress_data c k j u input dest_peer roomy.some_data (omega arith) compress
          cache packed (known.compresses packs) p in
      ground arith

-- What PrepareData makes of data that is not empty, the ParseData of the peer takes back, where the data is encrypted with RSA_PKCS1v15,
-- Blowfish or not at all, and compressed with gzip, snappy, zlib or not at all, where both sides' keys belong
-- together and the buffers of both sides are large enough.
pub parse_data-prepare_data :
    (c : Ciphers) (k j : Keys) (u : Undoes c k j) (encrypt compress : ℕ) (input out : List ℕ)
    (dest cache dest_peer cache_peer : ℕ)
    → Known encrypt compress
    → Roomy u.decryptor input dest dest_peer
    → ((packed : List ℕ)
        → encrypt ≢ 0
        → compress ≢ 0
        → compress_data c compress input cache ≡ Parsed.returned packed
        → Roomy u.decryptor packed dest cache_peer)
    → prepare_data c k encrypt compress input dest cache ≡ Parsed.returned out
    → parse_data c j encrypt compress out dest_peer cache_peer ≡ Parsed.returned input
parse_data-prepare_data c k j u encrypt compress input out dest cache dest_peer cache_peer known
      roomy middle run =
    elim (Parsed-cases (compress_data c compress input cache)) [
      | inr nothing ↦
          parse_data-OneStep c k j u encrypt compress input out dest cache dest_peer cache_peer
            known roomy (prepare_data-OneStep c k encrypt compress input out dest cache nothing run)
      | inl (packed, e) ↦
          elim (prepare_data-steps c k encrypt compress input out dest cache packed e run) [
            | inl one ↦
                parse_data-OneStep c k j u encrypt compress input out dest cache dest_peer
                  cache_peer known roomy one
            | inr two ↦
                parse_data-TwoSteps c k j u encrypt compress input packed out dest cache dest_peer
                  cache_peer known roomy (middle packed two.1 two.0 e) e two
          ]
    ]
