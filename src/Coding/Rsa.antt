-- ===== src/Coding/Rsa.antt =====
-- CXFastDataParserHandle.cpp, RSAEncryptData and RSADecryptData: the data is cut into pieces. The fuel is
-- one more than the data has bytes, which is enough where a piece is not empty.
pub mod Pieces
pub mod Refused
use konsan_net.Prelude.{
  ℕ, zero, suc, ◌+◌, ◌-◌, Option, none, some, List, [], ◌∷◌, ◌++◌, length, take, drop, ltb,
  if◌then◌else◌,
}
use konsan_net.Coding.Ciphers.{RsaEncryptor, RsaDecryptor, Decoding, Ciphers}

-- 0 with the output, -2, -3, -4, -5, or a loop that does not end.
pub data RsaResult : Type 0 where
  encoded : List ℕ → RsaResult
  no_room : RsaResult
  thrown : RsaResult
  invalid : RsaResult
  too_long : RsaResult
  endless : RsaResult

unfoldable pub encrypt_pieces : ℕ → RsaEncryptor → ℕ → List ℕ → List ℕ → RsaResult
encrypt_pieces zero e capacity input output = RsaResult.endless
encrypt_pieces (suc fuel) e capacity [] output = RsaResult.encoded output
encrypt_pieces (suc fuel) e capacity (b ∷ bs) output =
    let piece = take e.fixed_max_plaintext_length (b ∷ bs) in
    let later = drop e.fixed_max_plaintext_length (b ∷ bs) in
    if ltb (capacity - length output) (e.ciphertext_length (length piece))
    then RsaResult.no_room
    else elim (e.encrypt piece) [
      | none ↦ RsaResult.thrown
      | some c ↦ encrypt_pieces fuel e capacity later (output ++ c)
    ]

unfoldable pub decrypt_pieces : ℕ → RsaDecryptor → ℕ → List ℕ → List ℕ → RsaResult
decrypt_pieces zero d capacity input output = RsaResult.endless
decrypt_pieces (suc fuel) d capacity [] output = RsaResult.encoded output
decrypt_pieces (suc fuel) d capacity (b ∷ bs) output =
    let piece = take d.fixed_ciphertext_length (b ∷ bs) in
    let later = drop d.fixed_ciphertext_length (b ∷ bs) in
    let room = d.max_plaintext_length (length piece) in
    if ltb (capacity - length output) room then RsaResult.no_room else elim (d.decrypt piece) [
      | Decoding.thrown ↦ RsaResult.thrown
      | Decoding.invalid ↦ RsaResult.invalid
      | Decoding.valid p ↦
          let rest = decrypt_pieces fuel d capacity later (output ++ p) in
          if ltb room (length p) then RsaResult.too_long else rest
    ]

-- The key is read first; one that cannot be read is an exception.
unfoldable pub rsa_encrypt_data : Ciphers → List ℕ → List ℕ → ℕ → RsaResult
rsa_encrypt_data c key input capacity = elim (c.public_key key) [
  | none ↦ RsaResult.thrown
  | some e ↦ encrypt_pieces (suc (length input)) e capacity input []
]

unfoldable pub rsa_decrypt_data : Ciphers → List ℕ → List ℕ → ℕ → RsaResult
rsa_decrypt_data c key input capacity = elim (c.private_key key) [
  | none ↦ RsaResult.thrown
  | some d ↦ decrypt_pieces (suc (length input)) d capacity input []
]
