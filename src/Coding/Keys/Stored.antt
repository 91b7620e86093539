-- ===== src/Coding/Keys/Stored.antt =====
-- CXFastDataParserHandle.cpp: the keys that are used are those that were set or read.
use konsan_net.Prelude.{
  ℕ, zero, suc, ◌-◌, ◌<◌, ◌≤◌, ◌≡◌, refl, ap, ◌∙◌, true, false, none, some, List, [], ◌∷◌, ◌++◌,
  length, take, drop, is_empty, ltb, ◌==◌, arith, take-append, take_all, drop_all, append-nil,
  if◌then◌else◌,
}
use konsan_net.Coding.Keys.{
  KeyBuffer, KeyStore, ReadResult, used_part, stored_keys, set_buffer, overwrite, set_blowfish_info,
  c_string, zeros, read_pieces, read_key_file,
}

used_part-set_buffer : (new : List ℕ) (b : KeyBuffer) → used_part (set_buffer new b) ≡ new
unfolding used_part set_buffer overwrite
used_part-set_buffer new b = take-append (length new) new (drop (length new) b.bytes) refl

-- SetBlowfishInfo of a key and an iv of at most 128 bytes, neither empty, succeeds, and they are the ones
-- that are used.
pub set_blowfish_info-stored_keys :
    (key iv : List ℕ) (s : KeyStore)
    → is_empty key ≡ false
    → is_empty iv ≡ false
    → length key ≤ 128
    → length iv ≤ 128
    → ((set_blowfish_info key iv s).0 ≡ true)
      × (stored_keys (set_blowfish_info key iv s).1 ≡ record (stored_keys s) { key = key; iv = iv })
unfolding set_blowfish_info stored_keys
set_blowfish_info-stored_keys key iv s some_key some_iv short fits =
    let a : ltb 128 (length key) ≡ false = ground arith in
    let b : ltb 128 (length iv) ≡ false = ground arith in
    rw (some_key, some_iv, a, b)
      (
        refl,
        λ i. record {
          pub_key = s.pub_key;
          priv_key = s.priv_key;
          key = used_part-set_buffer key s.by_key i;
          iv = used_part-set_buffer iv s.by_iv i;
        },
      )

-- SetBlowfishInfo of a key of at most 128 bytes, not empty, and an iv of more fails and all the same
-- replaces the key: the new key is then used with the old iv.
pub set_blowfish_info_half :
    (key iv : List ℕ) (s : KeyStore)
    → is_empty key ≡ false
    → length key ≤ 128
    → 128 < length iv
    → ((set_blowfish_info key iv s).0 ≡ false)
      × (stored_keys (set_blowfish_info key iv s).1 ≡ record (stored_keys s) { key = key })
unfolding set_blowfish_info stored_keys
set_blowfish_info_half key [] s some_key short long = absurd (omega arith)
set_blowfish_info_half key (v ∷ vs) s some_key short long =
    let a : ltb 128 (length key) ≡ false = ground arith in
    let b : ltb 128 (length (v ∷ vs)) ≡ true = ground arith in
    rw (some_key, a, b)
      (
        refl,
        λ i. record {
          pub_key = s.pub_key;
          priv_key = s.priv_key;
          key = used_part-set_buffer key s.by_key i;
          iv = used_part s.by_iv;
        },
      )

-- Text without a zero byte.
pub data NonZero : List ℕ → Type 0 where
  done : NonZero []
  before : {b : ℕ} {bs : List ℕ} → (b == 0) ≡ false → NonZero bs → NonZero (b ∷ bs)

c_string-zeros : (bs : List ℕ) (n : ℕ) → NonZero bs → 0 < n → c_string (bs ++ zeros n) ≡ some bs
unfolding c_string zeros
c_string-zeros [] zero w h = absurd (omega arith)
c_string-zeros [] (suc n) w h = refl
c_string-zeros (b ∷ bs) n (NonZero.before e w) h = rw (e, c_string-zeros bs n w h) refl

c_string_endless : (bs : List ℕ) → NonZero bs → c_string bs ≡ none
unfolding c_string
c_string_endless [] w = refl
c_string_endless (b ∷ bs) (NonZero.before e w) = rw (e, c_string_endless bs w) refl

-- One round of the loop that reads `once` bytes.
round : ℕ → ℕ → ℕ → List ℕ → List ℕ → ReadResult
round fuel size once left text =
    let piece = take once left in
    elim (c_string (piece ++ zeros (4096 - length piece))) [
      | none ↦ ReadResult.overrun
      | some s ↦ read_pieces fuel size (drop once left) (text ++ s)
    ]

round_all :
    (fuel size once : ℕ) (left text s : List ℕ)
    → take once left ≡ left
    → c_string (left ++ zeros (4096 - length left)) ≡ some s
    → drop once left ≡ []
    → round (suc fuel) size once left text ≡ ReadResult.read (text ++ s)
unfolding round read_pieces
round_all fuel size once left text s front string rest = rw (front, string, rest, round) refl

round_overrun :
    (fuel size once : ℕ) (left text : List ℕ)
    → take once left ≡ left
    → c_string (left ++ zeros (4096 - length left)) ≡ none
    → round fuel size once left text ≡ ReadResult.overrun
unfolding round
round_overrun fuel size once left text front string = rw (front, string, round) refl

read_pieces-round :
    (fuel size once b : ℕ) (bs text : List ℕ)
    → (size == 0) ≡ false
    → (if ltb size 4096 then size else 4096) ≡ once
    → read_pieces (suc fuel) size (b ∷ bs) text ≡ round fuel size once (b ∷ bs) text
unfolding read_pieces round
read_pieces-round fuel size once b bs text some_size same =
    let opened : read_pieces (suc fuel) size (b ∷ bs) text
        ≡ round fuel size (if ltb size 4096 then size else 4096) (b ∷ bs) text =
      rw some_size refl in
    opened ∙ ap (λ n. round fuel size n (b ∷ bs) text) same

-- ReadKeyFile of a text of fewer than 4096 bytes reads all of it.
pub read_key_file-read :
    (contents : List ℕ)
    → NonZero contents
    → length contents < 4096
    → read_key_file (some (record { size = length contents; contents = contents }))
      ≡ ReadResult.read contents
unfolding read_key_file read_pieces
read_key_file-read [] w h = refl
read_key_file-read (b ∷ bs) w h =
    let n = length (b ∷ bs) in
    let some_size : (n == 0) ≡ false = ground arith in
    let small : ltb n 4096 ≡ true = ground arith in
    read_pieces-round n n n b bs [] some_size (rw small refl)
    ∙ round_all (length bs) n n (b ∷ bs) [] (b ∷ bs) (take_all n (b ∷ bs) (omega arith))
        (c_string-zeros (b ∷ bs) (4096 - n) w (omega arith)) (drop_all n (b ∷ bs) (omega arith))

-- ReadKeyFile of a text of exactly 4096 bytes, none of them zero, reads past its array.
pub read_key_file_overrun :
    (contents : List ℕ)
    → NonZero contents
    → length contents ≡ 4096
    → read_key_file (some (record { size = length contents; contents = contents }))
      ≡ ReadResult.overrun
unfolding read_key_file zeros
read_key_file_overrun [] w h = absurd (omega arith)
read_key_file_overrun (b ∷ bs) w h =
    let n = length (b ∷ bs) in
    let some_size : (n == 0) ≡ false = ground arith in
    let large : ltb n 4096 ≡ false = ground arith in
    let none_left : zeros (4096 - n) ≡ [] = ap zeros (let z : 4096 - n ≡ 0 = omega arith in z) in
    read_pieces-round n n 4096 b bs [] some_size (rw large refl)
    ∙ round_overrun n n 4096 (b ∷ bs) [] (take_all 4096 (b ∷ bs) (omega arith)) (
        ap (λ z. c_string ((b ∷ bs) ++ z)) none_left
        ∙ ap (λ z. c_string z) (append-nil (b ∷ bs))
        ∙ c_string_endless (b ∷ bs) w)
