-- ===== src/Coding/Parser.antt =====
-- CXDataParser/src/CXFastDataParserHandle.cpp, PrepareData and ParseData. A buffer is its size, and what
-- was written to it is the value of the step that wrote it.
pub mod Steps
pub mod Undone
use konsan_net.Prelude.{
  ℕ, Bool, true, false, ◌&&◌, ◌||◌, Option, none, some, List, [], ◌∷◌, length, is_empty, leb, ltb,
  ◌==◌, if◌then◌else◌,
}
use konsan_net.Coding.Ciphers.{Ciphers, Packed}
use konsan_net.Coding.Rsa.{RsaResult, rsa_encrypt_data, rsa_decrypt_data}

-- m_strPubKey, m_strPrivKey, and the used parts of m_byKey and m_byIv.
pub record Keys : Type 0 where
  pub pub_key : List ℕ
  pub priv_key : List ℕ
  pub key : List ℕ
  pub iv : List ℕ

-- CXENCRYPT_TYPE and CXCOMPRESS_TYPE.
abbrev pub rsa_pkcs1v15 : ℕ
rsa_pkcs1v15 = 129

abbrev pub rsa_oaep : ℕ
rsa_oaep = 130

abbrev pub blowfish : ℕ
blowfish = 131

abbrev pub gzip : ℕ
gzip = 129

abbrev pub snappy : ℕ
snappy = 130

abbrev pub zlib : ℕ
zlib = 131

-- `return false`, the data that was returned, a length that was returned with nothing written, or a write
-- past the end of the output buffer.
pub data Parsed : Type 0 where
  failed : Parsed
  returned : List ℕ → Parsed
  unwritten : ℕ → Parsed
  overrun : Parsed

unfoldable pub rsa_output : RsaResult → Option (List ℕ)
rsa_output (RsaResult.encoded output) = some output
rsa_output RsaResult.no_room = none
rsa_output RsaResult.thrown = none
rsa_output RsaResult.invalid = none
rsa_output RsaResult.too_long = none
rsa_output RsaResult.endless = none

-- BlowfishEncryptData and BlowfishDecryptData of buffers that are not NULL.
unfoldable pub blowfish_data :
    (List ℕ → List ℕ → List ℕ → Option (List ℕ)) → Ciphers → Keys → List ℕ → ℕ → Option (List ℕ)
blowfish_data cipher c k input capacity =
    if is_empty k.key || is_empty k.iv || is_empty input || capacity == 0
    then none
    else elim (cipher k.key k.iv input) [
      | none ↦ none
      | some output ↦ some (c.array_sink capacity output)
    ]

-- GzipCompressData and ZlibCompressData of what the compressor made of the data.
unfoldable pub compressed_data : Option Packed → ℕ → Option (List ℕ)
compressed_data none capacity = none
compressed_data (some p) capacity =
    if ltb 0 p.remain
    then none
    else if ltb 0 (length p.output) && ltb (length p.output) capacity
    then some p.output
    else none

-- GzipUncompressData and ZlibUncompressData.
unfoldable pub uncompressed_data : Ciphers → Option Packed → ℕ → Option (List ℕ)
uncompressed_data c none capacity = none
uncompressed_data c (some p) capacity =
    let output = c.array_sink capacity p.output in
    if is_empty output || ltb 0 p.remain then none else some output

-- The snappy branch of ParseData.
unfoldable pub snappy_uncompress_data : Ciphers → List ℕ → ℕ → Option (List ℕ)
snappy_uncompress_data c input capacity = elim (c.snappy_uncompressed_length input) [
  | none ↦ none
  | some n ↦ if ltb capacity n then none else c.snappy_uncompress input
]

unfoldable pub parsed : Option (List ℕ) → Parsed
parsed none = Parsed.failed
parsed (some output) = Parsed.returned output

-- RawCompress of snappy takes no length of the buffer that it writes to.
unfoldable pub snappy_compress_data : Ciphers → List ℕ → ℕ → Parsed
snappy_compress_data c input capacity =
    if ltb capacity (length (c.snappy_compress input))
    then Parsed.overrun
    else Parsed.returned (c.snappy_compress input)

-- The switches of PrepareData. A type that is not known leaves no data.
unfoldable pub compress_data : Ciphers → ℕ → List ℕ → ℕ → Parsed
compress_data c type input capacity =
    if type == gzip
    then parsed (compressed_data (c.gzip_compress input) capacity)
    else if type == snappy
    then snappy_compress_data c input capacity
    else if type == zlib
    then parsed (compressed_data (c.zlib_compress input) capacity)
    else Parsed.returned []

unfoldable pub encrypt_data : Ciphers → Keys → ℕ → List ℕ → ℕ → Option (List ℕ)
encrypt_data c k type input capacity =
    if ltb capacity (length input)
    then none
    else if type == rsa_pkcs1v15
    then rsa_output (rsa_encrypt_data c k.pub_key input capacity)
    else if type == rsa_oaep
    then rsa_output (rsa_encrypt_data c k.pub_key input capacity)
    else if type == blowfish
    then blowfish_data c.blowfish_encrypt c k input capacity
    else some []

-- The switches of ParseData. The OAEP branch takes the public key.
unfoldable pub decrypt_data : Ciphers → Keys → ℕ → List ℕ → ℕ → Option (List ℕ)
decrypt_data c k type input capacity =
    if type == rsa_pkcs1v15
    then rsa_output (rsa_decrypt_data c k.priv_key input capacity)
    else if type == rsa_oaep
    then rsa_output (rsa_decrypt_data c k.pub_key input capacity)
    else if type == blowfish
    then blowfish_data c.blowfish_decrypt c k input capacity
    else some []

unfoldable pub uncompress_data : Ciphers → ℕ → List ℕ → ℕ → Option (List ℕ)
uncompress_data c type input capacity =
    if type == gzip
    then uncompressed_data c (c.gzip_uncompress input) capacity
    else if type == snappy
    then snappy_uncompress_data c input capacity
    else if type == zlib
    then uncompressed_data c (c.zlib_uncompress input) capacity
    else some []

-- The two steps, the first of them into the cache where both are wanted.
unfoldable pub prepare_data : Ciphers → Keys → ℕ → ℕ → List ℕ → ℕ → ℕ → Parsed
prepare_data c k encrypt compress input dest cache =
    if compress == 0
    then (if encrypt == 0
        then Parsed.unwritten dest
        else parsed (encrypt_data c k encrypt input dest))
    else if ltb cache (length input)
    then Parsed.failed
    else if encrypt == 0
    then compress_data c compress input dest
    else elim (compress_data c compress input cache) [
      | Parsed.failed ↦ Parsed.failed
      | Parsed.returned packed ↦ parsed (encrypt_data c k encrypt packed dest)
      | Parsed.unwritten n ↦ Parsed.unwritten n
      | Parsed.overrun ↦ Parsed.overrun
    ]

unfoldable pub parse_data : Ciphers → Keys → ℕ → ℕ → List ℕ → ℕ → ℕ → Parsed
parse_data c k encrypt compress input dest cache =
    if encrypt == 0
    then (if compress == 0
        then Parsed.unwritten dest
        else parsed (uncompress_data c compress input dest))
    else if compress == 0
    then parsed (decrypt_data c k encrypt input dest)
    else elim (decrypt_data c k encrypt input cache) [
      | none ↦ Parsed.failed
      | some packed ↦ parsed (uncompress_data c compress packed dest)
    ]
