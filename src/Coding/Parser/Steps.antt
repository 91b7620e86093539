-- ===== src/Coding/Parser/Steps.antt =====
-- CXFastDataParserHandle.cpp: each step of ParseData undoes its step of PrepareData.
use konsan_net.Prelude.{
  ℕ, ◌+◌, ◌<◌, ◌≤◌, ◌≡◌, ◌⊎◌, refl, sym, ap, ◌∙◌, subst, false, ◌&&◌, Option, none, some, List, [],
  ◌∷◌, length, is_empty, ltb, ◌==◌, Bool-cases, inl, inr, arith,
}
use konsan_net.Coding.Ciphers.{Ciphers, Packed, RsaEncryptor, RsaDecryptor, RsaPair}
use konsan_net.Coding.Rsa.{RsaResult, rsa_encrypt_data}
use konsan_net.Coding.Rsa.Pieces.{rsa_decrypt_data-rsa_encrypt_data}
use konsan_net.Coding.Parser.{
  Parsed, parsed, snappy_compress_data, Keys, rsa_pkcs1v15, blowfish, gzip, snappy, zlib,
  rsa_output, blowfish_data, compressed_data, uncompressed_data, snappy_uncompress_data,
  compress_data, encrypt_data, decrypt_data, uncompress_data,
}

-- The bytes that EAX of a cipher with blocks of 8 bytes adds.
abbrev pub eax_tag : ℕ
eax_tag = 8

-- What is documented of the libraries, for the keys `k` of a sender and `j` of a receiver: a sink keeps
-- what fits, and what was encrypted or compressed is got back.
pub record Undoes (c : Ciphers) (k j : Keys) : Type 0 where
  pub encryptor : RsaEncryptor
  pub decryptor : RsaDecryptor
  pub pair : RsaPair encryptor decryptor
  pub public_key : c.public_key k.pub_key ≡ some encryptor
  pub private_key : c.private_key j.priv_key ≡ some decryptor
  pub same_key : j.key ≡ k.key
  pub same_iv : j.iv ≡ k.iv
  pub sink : (n : ℕ) (bs : List ℕ) → length bs ≤ n → c.array_sink n bs ≡ bs
  pub eax :
      (bs out : List ℕ)
      → c.blowfish_encrypt k.key k.iv bs ≡ some out
      → (length out ≡ length bs + eax_tag) × (c.blowfish_decrypt k.key k.iv out ≡ some bs)
  pub gzip :
      (bs : List ℕ) (p : Packed)
      → c.gzip_compress bs ≡ some p
      → c.gzip_uncompress p.output ≡ some (record { remain = 0; output = bs })
  pub zlib :
      (bs : List ℕ) (p : Packed)
      → c.zlib_compress bs ≡ some p
      → c.zlib_uncompress p.output ≡ some (record { remain = 0; output = bs })
  pub snappy : (bs : List ℕ) → c.snappy_uncompress (c.snappy_compress bs) ≡ some bs
  pub snappy_length :
      (bs : List ℕ) → c.snappy_uncompressed_length (c.snappy_compress bs) ≡ some (length bs)

not_empty : (bs : List ℕ) → 0 < length bs → is_empty bs ≡ false
not_empty [] h = absurd (omega arith)
not_empty (b ∷ bs) h = refl

rsa_output-some :
    (r : RsaResult) (out : List ℕ) → rsa_output r ≡ some out → r ≡ RsaResult.encoded out
unfolding rsa_output
rsa_output-some (RsaResult.encoded x) out h = ap RsaResult.encoded (let same : x ≡ out = cc in same)
rsa_output-some RsaResult.no_room out h = absurd (cc)
rsa_output-some RsaResult.thrown out h = absurd (cc)
rsa_output-some RsaResult.invalid out h = absurd (cc)
rsa_output-some RsaResult.too_long out h = absurd (cc)
rsa_output-some RsaResult.endless out h = absurd (cc)

compressed_data-some :
    (o : Option Packed) (capacity : ℕ) (out : List ℕ)
    → compressed_data o capacity ≡ some out
    → (p : Packed) × ((o ≡ some p) × (p.output ≡ out))
unfolding compressed_data
compressed_data-some none capacity out h = absurd (cc)
compressed_data-some (some p) capacity out h = elim (Bool-cases (ltb 0 p.remain)) [
  | inl r ↦ absurd (let no : compressed_data (some p) capacity ≡ none = rw r refl in cc)
  | inr r ↦ elim (Bool-cases (ltb 0 (length p.output) && ltb (length p.output) capacity)) [
    | inr s ↦ absurd (let no : compressed_data (some p) capacity ≡ none = rw (r, s) refl in cc)
    | inl s ↦
        let yes : compressed_data (some p) capacity ≡ some p.output = rw (r, s) refl in
        let same : p.output ≡ out = cc in (p, (refl, same))
  ]
]

parsed-returned :
    (o : Option (List ℕ)) (out : List ℕ) → parsed o ≡ Parsed.returned out → o ≡ some out
unfolding parsed
parsed-returned none out h = absurd (cc)
parsed-returned (some x) out h = ap some (let same : x ≡ out = cc in same)

snappy_compress_data-returned :
    (c : Ciphers) (input : List ℕ) (capacity : ℕ) (out : List ℕ)
    → snappy_compress_data c input capacity ≡ Parsed.returned out
    → c.snappy_compress input ≡ out
unfolding snappy_compress_data
snappy_compress_data-returned c input capacity out h = ground arith

module _ (c : Ciphers) (k j : Keys) (u : Undoes c k j) (input : List ℕ) (room : ℕ)
    (some_data : 0 < length input) (fits : length input ≤ room) where
  uncompressed :
      (o : Option Packed)
      → o ≡ some (record { remain = 0; output = input })
      → uncompressed_data c o room ≡ some input
  unfolding uncompressed_data
  uncompressed o e = rw (e, u.sink room input fits, not_empty input some_data) refl

  -- Each compression that PrepareData knows is undone.
  pub uncompress_data-compress_data :
      (type capacity : ℕ) (out : List ℕ)
      → (type ≡ gzip) ⊎ ((type ≡ snappy) ⊎ (type ≡ zlib))
      → compress_data c type input capacity ≡ Parsed.returned out
      → uncompress_data c type out room ≡ some input
  unfolding compress_data uncompress_data snappy_uncompress_data
  uncompress_data-compress_data type capacity out (inl g) run =
      let now : compress_data c gzip input capacity ≡ Parsed.returned out =
        subst (λ t. compress_data c t input capacity ≡ Parsed.returned out) g run in
      let (p, (e, same)) =
        compressed_data-some (c.gzip_compress input) capacity out (parsed-returned _ out now) in
      rw g
        (uncompressed (c.gzip_uncompress out) (ap c.gzip_uncompress (sym same) ∙ u.gzip input p e))
  uncompress_data-compress_data type capacity out (inr (inl s)) run =
      let now : snappy_compress_data c input capacity ≡ Parsed.returned out =
        subst (λ t. compress_data c t input capacity ≡ Parsed.returned out) s run in
      let same = snappy_compress_data-returned c input capacity out now in
      let enough : ltb room (length input) ≡ false = ground arith in
      subst (λ o. uncompress_data c type o room ≡ some input) same
        (rw (s, u.snappy_length input, enough, u.snappy input, snappy_uncompress_data) refl)
  uncompress_data-compress_data type capacity out (inr (inr z)) run =
      let now : compress_data c zlib input capacity ≡ Parsed.returned out =
        subst (λ t. compress_data c t input capacity ≡ Parsed.returned out) z run in
      let (p, (e, same)) =
        compressed_data-some (c.zlib_compress input) capacity out (parsed-returned _ out now) in
      rw z
        (uncompressed (c.zlib_uncompress out) (ap c.zlib_uncompress (sym same) ∙ u.zlib input p e))

blowfish_data-some :
    (cipher : List ℕ → List ℕ → List ℕ → Option (List ℕ)) (c : Ciphers) (k : Keys) (input : List ℕ)
    (capacity : ℕ) (out : List ℕ)
    → blowfish_data cipher c k input capacity ≡ some out
    → (x : List ℕ) × ((is_empty k.key ≡ false)
        × ((is_empty k.iv ≡ false)
            × ((cipher k.key k.iv input ≡ some x) × (c.array_sink capacity x ≡ out))))
unfolding blowfish_data
blowfish_data-some cipher c k input capacity out h = ground arith

module _ (c : Ciphers) (k j : Keys) (u : Undoes c k j) (input out : List ℕ) (dest room : ℕ)
    (some_data : 0 < length input)
    (fits : length input + u.decryptor.max_plaintext_length u.decryptor.fixed_ciphertext_length
      ≤ room)
    (tag : length input + eax_tag ≤ dest) where
  rsa_undone :
      (type : ℕ)
      → type ≡ rsa_pkcs1v15
      → encrypt_data c k type input dest ≡ some out
      → decrypt_data c j type out room ≡ some input
  unfolding encrypt_data decrypt_data rsa_output
  rsa_undone type r run =
      let enough : ltb dest (length input) ≡ false = ground arith in
      let now : encrypt_data c k rsa_pkcs1v15 input dest ≡ some out =
        subst (λ t. encrypt_data c k t input dest ≡ some out) r run in
      let whole : encrypt_data c k rsa_pkcs1v15 input dest
          ≡ rsa_output (rsa_encrypt_data c k.pub_key input dest) =
        rw enough refl in
      let made = rsa_output-some (rsa_encrypt_data c k.pub_key input dest) out (sym whole ∙ now) in
      rw r (
        ap rsa_output (
          rsa_decrypt_data-rsa_encrypt_data c k.pub_key j.priv_key u.encryptor u.decryptor input out
            dest room u.pair u.public_key u.private_key fits made))

  blowfish_back :
      (x : List ℕ)
      → is_empty k.key ≡ false
      → is_empty k.iv ≡ false
      → c.blowfish_decrypt k.key k.iv x ≡ some input
      → 0 < length x
      → blowfish_data c.blowfish_decrypt c j x room ≡ some input
  unfolding blowfish_data
  blowfish_back x key iv back size =
      let space : (room == 0) ≡ false = ground arith in
      rw
        (
          u.same_key,
          u.same_iv,
          key,
          iv,
          not_empty x size,
          space,
          back,
          blowfish_data,
          u.sink room input (omega arith),
        )
        refl

  blowfish_undone :
      (type : ℕ)
      → type ≡ blowfish
      → encrypt_data c k type input dest ≡ some out
      → decrypt_data c j type out room ≡ some input
  unfolding encrypt_data decrypt_data
  blowfish_undone type b run =
      let enough : ltb dest (length input) ≡ false = ground arith in
      let now : encrypt_data c k blowfish input dest ≡ some out =
        subst (λ t. encrypt_data c k t input dest ≡ some out) b run in
      let whole : encrypt_data c k blowfish input dest
          ≡ blowfish_data c.blowfish_encrypt c k input dest =
        rw enough refl in
      let (x, (key, (iv, (made, kept)))) =
        blowfish_data-some c.blowfish_encrypt c k input dest out (sym whole ∙ now) in
      let (n, back) = u.eax input x made in
      let same : x ≡ out = sym (u.sink dest x (omega arith)) ∙ kept in
      rw b (
        ap (λ o. blowfish_data c.blowfish_decrypt c j o room) (sym same)
        ∙ blowfish_back x key iv back (omega arith))

  -- Each encryption of PrepareData whose key ParseData reads is undone.
  pub decrypt_data-encrypt_data :
      (type : ℕ)
      → (type ≡ rsa_pkcs1v15) ⊎ (type ≡ blowfish)
      → encrypt_data c k type input dest ≡ some out
      → decrypt_data c j type out room ≡ some input
  decrypt_data-encrypt_data type (inl r) run = rsa_undone type r run
  decrypt_data-encrypt_data type (inr b) run = blowfish_undone type b run
