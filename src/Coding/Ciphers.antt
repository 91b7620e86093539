-- ===== src/Coding/Ciphers.antt =====
-- The ciphers and compressors that CXDataParser/src/CXFastDataParserHandle.cpp calls: those of the
-- libraries Crypto++ and snappy. They are parameters, and an exception is none.
use konsan_net.Prelude.{ℕ, ◌<◌, ◌≤◌, ◌≡◌, Option, some, List, length}

-- PK_Encryptor and PK_Decryptor of a key; the random pool is fixed.
pub record RsaEncryptor : Type 0 where
  pub fixed_max_plaintext_length : ℕ
  pub ciphertext_length : ℕ → ℕ
  pub encrypt : List ℕ → Option (List ℕ)

-- DecodingResult, and an exception.
pub data Decoding : Type 0 where
  thrown : Decoding
  invalid : Decoding
  valid : List ℕ → Decoding

pub record RsaDecryptor : Type 0 where
  pub fixed_ciphertext_length : ℕ
  pub max_plaintext_length : ℕ → ℕ
  pub decrypt : List ℕ → Decoding

-- A compressor is given all of its input: how many bytes Put did not take, and what can be retrieved.
pub record Packed : Type 0 where
  pub remain : ℕ
  pub output : List ℕ

-- `array_sink capacity bytes` are the TotalPutLength bytes that the output buffer of an ArraySink
-- gives back after `bytes` were put into it.
pub record Ciphers : Type 0 where
  pub public_key : List ℕ → Option RsaEncryptor
  pub private_key : List ℕ → Option RsaDecryptor
  pub blowfish_encrypt : List ℕ → List ℕ → List ℕ → Option (List ℕ)
  pub blowfish_decrypt : List ℕ → List ℕ → List ℕ → Option (List ℕ)
  pub gzip_compress : List ℕ → Option Packed
  pub gzip_uncompress : List ℕ → Option Packed
  pub zlib_compress : List ℕ → Option Packed
  pub zlib_uncompress : List ℕ → Option Packed
  pub snappy_compress : List ℕ → List ℕ
  pub snappy_uncompressed_length : List ℕ → Option ℕ
  pub snappy_uncompress : List ℕ → Option (List ℕ)
  pub array_sink : ℕ → List ℕ → List ℕ

-- What a pair of RSA keys promises of a piece that the encryptor takes.
pub record RsaPair (e : RsaEncryptor) (d : RsaDecryptor) : Type 0 where
  pub piece : 0 < e.fixed_max_plaintext_length
  pub block : 0 < d.fixed_ciphertext_length
  pub size : (p c : List ℕ) → e.encrypt p ≡ some c → length c ≡ d.fixed_ciphertext_length
  pub decrypts : (p c : List ℕ) → e.encrypt p ≡ some c → d.decrypt c ≡ Decoding.valid p
  pub room :
      (p c : List ℕ)
      → e.encrypt p ≡ some c
      → length p ≤ d.max_plaintext_length d.fixed_ciphertext_length
