-- ===== src/Packet/Sender/Coded.antt =====
-- CXConnectionObject.cpp and CXFastDataParserHandle.cpp: an encrypted body, through PreparedAndSendPacket
-- and ParseMessage with the buffers that these two take.
use konsan_net.Prelude.{
  ℕ, ◌+◌, ◌<◌, ◌≤◌, ◌^◌, ◌≡◌, ◌⊎◌, refl, sym, ap, ◌∙◌, Option, none, some, List, length, inl, inr,
  arith,
}
use konsan_net.Coding.Ciphers.{Ciphers, RsaDecryptor}
use konsan_net.Coding.Parser.{Keys, Parsed, rsa_pkcs1v15, blowfish, prepare_data, parse_data}
use konsan_net.Coding.Parser.Steps.{Undoes}
use konsan_net.Coding.Parser.Undone.{Roomy, parse_data-prepare_data}
use konsan_net.Packet.Receiver.{Surroundings, parse_output_len, parse_cache_len}
use konsan_net.Packet.Sender.{Facilities, prepare_cache_len}

-- The caller's view of a CXFastDataParserHandle. No caller asks it for neither step, and a fault
-- is not asked about.
unfoldable pub output_of : Parsed → Option (List ℕ)
output_of Parsed.failed = none
output_of (Parsed.returned bs) = some bs
output_of (Parsed.unwritten n) = none
output_of Parsed.overrun = none

output_of-some : (p : Parsed) (bs : List ℕ) → output_of p ≡ some bs → p ≡ Parsed.returned bs
unfolding output_of
output_of-some Parsed.failed bs h = absurd (cc)
output_of-some (Parsed.returned x) bs h = ap Parsed.returned (let same : x ≡ bs = cc in same)
output_of-some (Parsed.unwritten n) bs h = absurd (cc)
output_of-some Parsed.overrun bs h = absurd (cc)

-- The buffers have room for a body of 420 bytes or more, and for one that leaves a whole piece free in
-- 420 bytes.
buffers-Roomy :
    (d : RsaDecryptor) (body : List ℕ)
    → 0 < length body
    → length body < 2 ^ 30
    → d.max_plaintext_length d.fixed_ciphertext_length ≤ 256
    → (420 ≤ length body) ⊎ (length body + d.max_plaintext_length d.fixed_ciphertext_length ≤ 420)
    → Roomy d body (prepare_cache_len (length body)) (parse_output_len (length body))
unfolding prepare_cache_len parse_output_len
buffers-Roomy d body some_data small piece (inl long) = record {
  some_data = some_data;
  tag = ground arith;
  piece = ground arith;
}
buffers-Roomy d body some_data small piece (inr short) = record {
  some_data = some_data;
  tag = ground arith;
  piece = ground arith;
}

-- Where both sides use the library's coder with keys that belong together, ParseMessage gets back a body
-- that PreparedAndSendPacket encrypted with RSA_PKCS1v15 or Blowfish and did not compress, in the buffers
-- that these two take, if a decrypted piece has at most 256 bytes, as with a key of at most 2048 bits, and the
-- body has 420 bytes or more, or leaves room for a piece below that. The body is not empty and has less than
-- 1 GB.
pub parse_data_encrypted :
    (c : Ciphers) (k j : Keys) (u : Undoes c k j) (f : Facilities) (ss : Surroundings) (encrypt : ℕ)
    (body prepared : List ℕ)
    → ((e : ℕ) (bs : List ℕ) (d n : ℕ)
        → f.prepare_data e 0 bs d n ≡ output_of (prepare_data c k e 0 bs d n))
    → ((e : ℕ) (bs : List ℕ) (d n : ℕ)
        → ss.parse_data e 0 bs d n ≡ output_of (parse_data c j e 0 bs d n))
    → (encrypt ≡ rsa_pkcs1v15) ⊎ (encrypt ≡ blowfish)
    → 0 < length body
    → length body < 2 ^ 30
    → u.decryptor.max_plaintext_length u.decryptor.fixed_ciphertext_length ≤ 256
    → (420 ≤ length body)
      ⊎ (length body + u.decryptor.max_plaintext_length u.decryptor.fixed_ciphertext_length ≤ 420)
    → f.prepare_data encrypt 0 body
        (prepare_cache_len (length body))
        (prepare_cache_len (length body))
      ≡ some prepared
    → ss.parse_data encrypt 0 prepared
        (parse_output_len (length body))
        (parse_cache_len (length body))
      ≡ some body
unfolding output_of
parse_data_encrypted c k j u f ss encrypt body prepared prepares parses known some_data small piece
      room run =
    let n = length body in
    let dest = prepare_cache_len n in
    let made =
      output_of-some (prepare_data c k encrypt 0 body dest dest) prepared
        (sym (prepares encrypt body dest dest) ∙ run) in
    let back =
      parse_data-prepare_data c k j u encrypt 0 body prepared dest dest (parse_output_len n)
        (parse_cache_len n) (record { encrypts = λ e. known; compresses = λ no. absurd (no refl) })
        (buffers-Roomy u.decryptor body some_data small piece room)
        (λ packed e no. absurd (no refl)) made in
    parses encrypt prepared (parse_output_len n) (parse_cache_len n) ∙ ap output_of back
