-- ===== src/Coding/Tests.antt =====
-- CXDataParser with concrete ciphers: the theorems at inputs that meet their hypotheses.
use konsan_net.Prelude.{
  ℕ, zero, suc, ◌+◌, ◌-◌, ◌≤◌, ◌≡◌, inl, refl, sym, ap, ◌∙◌, Option, none, some, List, [], ◌∷◌,
  ◌++◌, length, arith, take, drop, take_all, take-append, length-append,
}
use konsan_net.Coding.Ciphers.{Ciphers, Packed, RsaEncryptor, RsaDecryptor, RsaPair, Decoding}
use konsan_net.Coding.Rsa.{RsaResult, rsa_encrypt_data, rsa_decrypt_data}
use konsan_net.Coding.Rsa.Refused.{rsa_decrypt_data-refused}
use konsan_net.Coding.Parser.{Keys, Parsed, prepare_data, parse_data, compress_data}
use konsan_net.Coding.Parser.Steps.{Undoes}
use konsan_net.Coding.Parser.Undone.{Roomy, parse_data-prepare_data}
use konsan_net.Coding.Keys.{ReadResult, read_key_file}
use konsan_net.Coding.Keys.Stored.{NonZero, read_key_file_overrun}

-- RSA with pieces of one byte and blocks of two.
abbrev encrypt_byte : List ℕ → Option (List ℕ)
encrypt_byte [] = none
encrypt_byte (b ∷ []) = some (7 ∷ b ∷ [])
encrypt_byte (b ∷ c ∷ bs) = none

abbrev decrypt_byte : List ℕ → Decoding
decrypt_byte [] = Decoding.invalid
decrypt_byte (a ∷ []) = Decoding.invalid
decrypt_byte (a ∷ b ∷ bs) = Decoding.valid (b ∷ bs)

abbrev pub encryptor : RsaEncryptor
encryptor = record {
  fixed_max_plaintext_length = 1;
  ciphertext_length = λ n. 2;
  encrypt = encrypt_byte;
}

abbrev pub decryptor : RsaDecryptor
decryptor = record {
  fixed_ciphertext_length = 2;
  max_plaintext_length = λ n. 1;
  decrypt = decrypt_byte;
}

pub encrypt_byte_cases :
    (p c : List ℕ)
    → encrypt_byte p ≡ some c
    → (length c ≡ 2) × ((decrypt_byte c ≡ Decoding.valid p) × (length p ≤ 1))
encrypt_byte_cases [] c h = absurd (cc)
encrypt_byte_cases (b ∷ []) c h =
    let same : 7 ∷ b ∷ [] ≡ c = cc in
    (ap {A = List ℕ} (λ l. length l) (sym same), (ap decrypt_byte (sym same), omega arith))
encrypt_byte_cases (b ∷ d ∷ bs) c h = absurd (cc)

pub byte_pair : RsaPair encryptor decryptor
byte_pair = record {
  piece = omega arith;
  block = omega arith;
  size = λ p c run. (encrypt_byte_cases p c run).0;
  decrypts = λ p c run. (encrypt_byte_cases p c run).1.0;
  room = λ p c run. (encrypt_byte_cases p c run).1.1;
}

abbrev pub tag : List ℕ
tag = 0 ∷ 0 ∷ 0 ∷ 0 ∷ 0 ∷ 0 ∷ 0 ∷ 0 ∷ []

abbrev pub ciphers : Ciphers
ciphers = record {
  public_key = λ key. some encryptor;
  private_key = λ key. some decryptor;
  blowfish_encrypt = λ key iv bs. some (bs ++ tag);
  blowfish_decrypt = λ key iv bs. some (take (length bs - 8) bs);
  gzip_compress = λ bs. some (record { remain = 0; output = 1 ∷ bs });
  gzip_uncompress = λ bs. some (record { remain = 0; output = drop 1 bs });
  zlib_compress = λ bs. some (record { remain = 0; output = 2 ∷ bs });
  zlib_uncompress = λ bs. some (record { remain = 0; output = drop 1 bs });
  snappy_compress = λ bs. bs;
  snappy_uncompressed_length = λ bs. some (length bs);
  snappy_uncompress = λ bs. some bs;
  array_sink = take;
}

abbrev pub keys : Keys
keys = record { pub_key = []; priv_key = []; key = 1 ∷ []; iv = 2 ∷ [] }

pub eax_undone :
    (bs out : List ℕ)
    → some (bs ++ tag) ≡ some out
    → (length out ≡ length bs + 8) × (some (take (length out - 8) out) ≡ some bs)
eax_undone bs out run =
    let same : bs ++ tag ≡ out = cc in
    let n = length-append bs tag in
    let l = ap {A = List ℕ} (λ xs. length xs) same in
    let size : length out ≡ length bs + 8 = omega arith in
    let front : take (length out - 8) out ≡ bs =
      ap (λ xs. take (length out - 8) xs) (sym same)
      ∙ take-append (length out - 8) bs tag (omega arith) in
    (size, ap some front)

abbrev pub packed : List ℕ → Packed
packed bs = record { remain = 0; output = bs }

pub packed_undone :
    (b : ℕ) (bs : List ℕ) (p : Packed)
    → some (packed (b ∷ bs)) ≡ some p
    → some (packed (drop 1 p.output)) ≡ some (packed bs)
packed_undone b bs p run =
    let same : packed (b ∷ bs) ≡ p = cc in ap (λ q. some (packed (drop 1 q.output))) (sym same)

abbrev pub undoes : Undoes ciphers keys keys
undoes = record {
  encryptor = encryptor;
  decryptor = decryptor;
  pair = byte_pair;
  public_key = refl;
  private_key = refl;
  same_key = refl;
  same_iv = refl;
  sink = λ n bs fits. take_all n bs fits;
  eax = λ bs out run. eax_undone bs out run;
  gzip = λ bs p run. packed_undone 1 bs p run;
  zlib = λ bs p run. packed_undone 2 bs p run;
  snappy = λ bs. refl;
  snappy_length = λ bs. refl;
}

packed_room :
    (zipped : List ℕ)
    → compress_data ciphers 129 (5 ∷ 6 ∷ []) 100 ≡ Parsed.returned zipped
    → Roomy decryptor zipped 100 100
unfolding compress_data konsan_net.Coding.Parser.parsed konsan_net.Coding.Parser.compressed_data
packed_room zipped run =
    let now : Parsed.returned (1 ∷ 5 ∷ 6 ∷ []) ≡ Parsed.returned zipped = run in
    let same : 1 ∷ 5 ∷ 6 ∷ [] ≡ zipped = cc in
    let n = ap {A = List ℕ} (λ xs. length xs) same in
    record { some_data = omega arith; tag = omega arith; piece = omega arith }

parse_data-prepare_data_example :
    parse_data ciphers keys 129 129 (7 ∷ 1 ∷ 7 ∷ 5 ∷ 7 ∷ 6 ∷ []) 100 100
    ≡ Parsed.returned (5 ∷ 6 ∷ [])
unfolding prepare_data compress_data konsan_net.Coding.Parser.compressed_data
    konsan_net.Coding.Parser.parsed konsan_net.Coding.Parser.encrypt_data
    konsan_net.Coding.Parser.rsa_output rsa_encrypt_data konsan_net.Coding.Rsa.encrypt_pieces
parse_data-prepare_data_example =
    parse_data-prepare_data ciphers keys keys undoes 129 129 (5 ∷ 6 ∷ [])
      (7 ∷ 1 ∷ 7 ∷ 5 ∷ 7 ∷ 6 ∷ []) 100 100 100 100
      (record { encrypts = λ e. inl refl; compresses = λ e. inl refl })
      (record { some_data = omega arith; tag = omega arith; piece = omega arith })
      (λ zipped e t run. packed_room zipped run) refl

rsa_decrypt_data-refused_example :
    rsa_decrypt_data ciphers [] (7 ∷ 5 ∷ 7 ∷ 6 ∷ []) 1 ≡ RsaResult.no_room
unfolding rsa_encrypt_data konsan_net.Coding.Rsa.encrypt_pieces
rsa_decrypt_data-refused_example =
    rsa_decrypt_data-refused ciphers [] [] encryptor decryptor 5 (6 ∷ []) (7 ∷ 5 ∷ 7 ∷ 6 ∷ []) 100 1
      byte_pair refl refl (omega arith) (omega arith) refl

-- A key file of 4096 bytes.
abbrev letters : ℕ → List ℕ
letters zero = []
letters (suc n) = 65 ∷ letters n

letters-NonZero : (n : ℕ) → NonZero (letters n)
letters-NonZero zero = NonZero.done
letters-NonZero (suc n) = NonZero.before refl (letters-NonZero n)

length-letters : (n : ℕ) → length (letters n) ≡ n
length-letters zero = refl
length-letters (suc n) = ap suc (length-letters n)

read_key_file_overrun_example :
    read_key_file (some (record { size = length (letters 4096); contents = letters 4096 }))
    ≡ ReadResult.overrun
read_key_file_overrun_example =
    read_key_file_overrun (letters 4096) (letters-NonZero 4096) (length-letters 4096)
