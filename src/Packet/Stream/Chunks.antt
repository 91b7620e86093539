-- ===== src/Packet/Stream/Chunks.antt =====
-- CXConnectionObject.cpp, RecvPacket: what one buffer adds to the current packet.
use konsan_net.Prelude.{
  ℕ, subst, ◌+◌, ◌-◌, ◌≤◌, ◌<◌, ◌≡◌, refl, sym, ap, ◌∙◌, Bool, true, false, List, ◌++◌, length,
  take, drop, ltb, ◌==◌, Bool-cases, inl, inr, arith, append_assoc, take-drop, length-append,
  length-take, take_all, take_past, drop_past, take_within, drop_within,
}
use konsan_net.Packet.Header.{
  header_len, packet_header_flag, max_chache_size, decode_header, decode_header-append,
}
use konsan_net.Packet.Receiver.{Progress, copy_body, check_header, read_buffer}
use konsan_net.Packet.Stream.{Cut, cut, cut_body, judge}

-- The bytes `used` and then `left` give a progress: what is cut from them and any further bytes.
unfoldable pub Reads : Bool → List ℕ → List ℕ → Progress → Type 0
Reads has_memory used left (Progress.more filled) =
    (filled ≡ used ++ left) × (cut has_memory filled ≡ Cut.waiting)
Reads has_memory used left Progress.bad =
    (later : List ℕ) → cut has_memory (used ++ (left ++ later)) ≡ Cut.bad
Reads has_memory used left Progress.exhausted =
    (later : List ℕ) → cut has_memory (used ++ (left ++ later)) ≡ Cut.exhausted
Reads has_memory used left (Progress.complete bytes rest) =
    (later : List ℕ) → cut has_memory (used ++ (left ++ later)) ≡ Cut.packet bytes (rest ++ later)

ltb-false : (a b : ℕ) → b ≤ a → ltb a b ≡ false
ltb-false a b h = ground arith

ltb-true : (a b : ℕ) → a < b → ltb a b ≡ true
ltb-true a b h = ground arith

ltb-true_lt : (a b : ℕ) → ltb a b ≡ true → a < b
ltb-true_lt a b h = ground arith

ltb-false_le : (a b : ℕ) → ltb a b ≡ false → b ≤ a
ltb-false_le a b h = ground arith

-- Behind a whole header, the bytes are judged by it.
cut_long :
    (has_memory : Bool) (xs ys : List ℕ)
    → header_len ≤ length xs
    → cut has_memory (xs ++ ys) ≡ judge has_memory (decode_header xs) (xs ++ ys)
unfolding cut
cut_long has_memory xs ys h =
    let n = length-append xs ys in
    rw (ltb-false (length (xs ++ ys)) header_len (omega arith), decode_header-append xs ys h) refl

-- How many bytes of the packet that begins with `used` are not there yet.
needed : List ℕ → ℕ
needed used = (decode_header used).data_len + header_len - length used

copy_body_short :
    (used left : List ℕ)
    → length left < needed used
    → copy_body used left ≡ Progress.more (used ++ left)
unfolding copy_body needed
copy_body_short used left h =
    let all = take_all (needed used) left (omega arith) in
    let n = length-append used left in
    rw
      (
        all,
        ltb-true (length (used ++ left)) ((decode_header used).data_len + header_len) (omega arith),
      )
      refl

copy_body_long :
    (used left : List ℕ)
    → length used ≤ (decode_header used).data_len + header_len
    → needed used ≤ length left
    → copy_body used left
      ≡ Progress.complete (used ++ take (needed used) left) (drop (needed used) left)
unfolding copy_body needed
copy_body_long used left small h =
    let n = length-append used (take (needed used) left) in
    let t = length-take (needed used) left h in
    rw
      (ltb-false (length (used ++ take (needed used) left))
        ((decode_header used).data_len + header_len) (omega arith))
      refl

module _ (used : List ℕ) (whole : header_len ≤ length used)
    (small : length used ≤ (decode_header used).data_len + header_len)
    (flag : ((decode_header used).flag == packet_header_flag) ≡ true)
    (size : ltb max_chache_size (decode_header used).data_len ≡ false) where
  cut_good : (ys : List ℕ) → cut true (used ++ ys) ≡ cut_body (decode_header used) (used ++ ys)
  unfolding judge
  cut_good ys = cut_long true used ys whole ∙ rw (flag, size) refl

  copy_body-Reads : (left : List ℕ) → Reads true used left (copy_body used left)
  unfolding Reads needed cut_body
  copy_body-Reads left = elim (Bool-cases (ltb (length left) (needed used))) [
    | inl e ↦
        let less = ltb-true_lt (length left) (needed used) e in
        let n = length-append used left in
        subst (Reads true used left) (sym (copy_body_short used left less)) (
          refl,
          cut_good left
              ∙ rw
                  (ltb-true (length (used ++ left)) ((decode_header used).data_len + header_len)
                    (omega arith))
                  refl,
        )
    | inr e ↦
        let enough = ltb-false_le (length left) (needed used) e in
        subst (Reads true used left) (sym (copy_body_long used left small enough)) (λ later.
          let n = length-append used (left ++ later) in
          let m = length-append left later in
          cut_good (left ++ later)
          ∙ rw
              (
                ltb-false (length (used ++ (left ++ later)))
                    ((decode_header used).data_len + header_len) (omega arith),
                take_past ((decode_header used).data_len + header_len) (needed used) used
                    (left ++ later) (omega arith),
                drop_past ((decode_header used).data_len + header_len) (needed used) used
                    (left ++ later) (omega arith),
                take_within (needed used) left later enough,
                drop_within (needed used) left later enough,
              )
              refl)
  ]

module _ (used left : List ℕ) (whole : header_len ≤ length used)
    (small : length used ≤ (decode_header used).data_len + header_len) where
  check_good :
      (has_memory : Bool)
      → ((decode_header used).flag == packet_header_flag) ≡ true
      → ltb max_chache_size (decode_header used).data_len ≡ false
      → Reads has_memory used left (check_header has_memory used left)
  unfolding check_header judge Reads
  check_good true flag size =
      let run : check_header true used left ≡ copy_body used left = rw (flag, size) refl in
      subst (Reads true used left) (sym run) (copy_body-Reads used whole small flag size left)
  check_good false flag size =
      let run : check_header false used left ≡ Progress.exhausted = rw (flag, size) refl in
      subst (Reads false used left) (sym run)
        (λ later. cut_long false used (left ++ later) whole ∙ rw (flag, size) refl)

  check_header-Reads :
      (has_memory : Bool) → Reads has_memory used left (check_header has_memory used left)
  unfolding check_header judge Reads
  check_header-Reads has_memory =
      elim (Bool-cases ((decode_header used).flag == packet_header_flag)) [
        | inr flag ↦
            let run : check_header has_memory used left ≡ Progress.bad = rw flag refl in
            subst (Reads has_memory used left) (sym run)
              (λ later. cut_long has_memory used (left ++ later) whole ∙ rw flag refl)
        | inl flag ↦ elim (Bool-cases (ltb max_chache_size (decode_header used).data_len)) [
          | inr size ↦ check_good has_memory flag size
          | inl size ↦
              let run : check_header has_memory used left ≡ Progress.bad = rw (flag, size) refl in
              subst (Reads has_memory used left) (sym run)
                (λ later. cut_long has_memory used (left ++ later) whole ∙ rw (flag, size) refl)
        ]
      ]

resplit_later :
    (used left filled rest later : List ℕ)
    → filled ++ rest ≡ used ++ left
    → used ++ (left ++ later) ≡ filled ++ (rest ++ later)
resplit_later used left filled rest later e =
    sym (append_assoc used left later)
    ∙ ap (λ bs. bs ++ later) (sym e)
    ∙ append_assoc filled rest later

-- The same bytes, split at another place.
Reads-resplit :
    (has_memory : Bool) (used left filled rest : List ℕ) (p : Progress)
    → filled ++ rest ≡ used ++ left
    → Reads has_memory filled rest p
    → Reads has_memory used left p
unfolding Reads
Reads-resplit has_memory used left filled rest (Progress.more f) e (whole, w) = (whole ∙ e, w)
Reads-resplit has_memory used left filled rest Progress.bad e h =
    λ later. ap (λ bs. cut has_memory bs) (resplit_later used left filled rest later e) ∙ h later
Reads-resplit has_memory used left filled rest Progress.exhausted e h =
    λ later. ap (λ bs. cut has_memory bs) (resplit_later used left filled rest later e) ∙ h later
Reads-resplit has_memory used left filled rest (Progress.complete bs l) e h =
    λ later. ap (λ bs. cut has_memory bs) (resplit_later used left filled rest later e) ∙ h later

-- A whole header that is kept waiting belongs to a packet that is not whole.
waiting-small :
    (has_memory : Bool) (used : List ℕ)
    → cut has_memory used ≡ Cut.waiting
    → header_len ≤ length used
    → length used < (decode_header used).data_len + header_len
unfolding cut judge cut_body
waiting-small has_memory used w whole = ground arith

cut_short :
    (has_memory : Bool) (bytes : List ℕ)
    → ltb (length bytes) header_len ≡ true
    → cut has_memory bytes ≡ Cut.waiting
unfolding cut
cut_short has_memory bytes e = rw e refl

filled_small :
    (has_memory : Bool) (used front : List ℕ)
    → cut has_memory used ≡ Cut.waiting
    → length front ≡ header_len - length used
    → length (used ++ front) ≤ (decode_header (used ++ front)).data_len + header_len
filled_small has_memory used front w e =
    let n = length-append used front in
    elim (Bool-cases (ltb (length used) header_len)) [
      | inl short ↦ let less = ltb-true_lt (length used) header_len short in omega arith
      | inr long ↦
          let whole = ltb-false_le (length used) header_len long in
          let small = waiting-small has_memory used w whole in
          rw (decode_header-append used front whole) (omega arith)
    ]

-- What a buffer that is not empty adds to a packet that is waited for.
pub read_buffer-Reads :
    (has_memory : Bool) (used left : List ℕ)
    → cut has_memory used ≡ Cut.waiting
    → Reads has_memory used left (read_buffer has_memory used left)
unfolding read_buffer Reads
read_buffer-Reads has_memory used left w =
    elim (Bool-cases (ltb (length left) (header_len - length used))) [
      | inl e ↦
          let less = ltb-true_lt (length left) (header_len - length used) e in
          let n = length-append used left in
          let short = ltb-true (length (used ++ left)) header_len (omega arith) in
          let all = take_all (header_len - length used) left (omega arith) in
          let run : read_buffer has_memory used left ≡ Progress.more (used ++ left) =
            rw (all, short) refl in
          subst (Reads has_memory used left) (sym run)
            (refl, cut_short has_memory (used ++ left) short)
      | inr e ↦
          let need = header_len - length used in
          let enough = ltb-false_le (length left) need e in
          let filled = used ++ take need left in
          let n = length-append used (take need left) in
          let t = length-take need left enough in
          let run : read_buffer has_memory used left
              ≡ check_header has_memory filled (drop need left) =
            rw (ltb-false (length filled) header_len (omega arith)) refl in
          subst (Reads has_memory used left) (sym run) (
            Reads-resplit has_memory used left filled (drop need left)
              (check_header has_memory filled (drop need left))
              (append_assoc used (take need left) (drop need left)
                ∙ ap (λ l. used ++ l) (take-drop need left))
              (check_header-Reads filled (drop need left) (omega arith)
                (filled_small has_memory used (take need left) w (omega arith)) has_memory))
    ]
