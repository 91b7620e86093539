-- ===== src/Packet/Stream/Scanned.antt =====
-- CXConnectionObject.cpp, RecvPacket: the loop over the buffers cuts the packet that the stream has at
-- its front.
use konsan_net.Prelude.{
  ℕ, suc, ◌+◌, ◌^◌, ◌<◌, ◌≡◌, refl, sym, ap, ◌∙◌, subst, Bool, true, false, List, [], ◌∷◌, ◌++◌,
  length, is_empty, is_empty-nil, ◌==◌, Bool-cases, inl, inr, arith, add64, append-nil,
  append_assoc,
}
use konsan_net.Packet.Receiver.{Buffer, Progress, Scan, read_buffer, scan}
use konsan_net.Packet.Stream.{Cut, cut, ready}
use konsan_net.Packet.Stream.Chunks.{Reads, read_buffer-Reads}

-- A scan of `bufs` that follow number i says what the stream has after the bytes `used`. The packet
-- that it cuts off ends in the buffers that it passed, or in the next one.
unfoldable pub Scanned : Bool → ℕ → ℕ → List ℕ → List Buffer → Scan → Type 0
Scanned has_memory i passed used bufs Scan.waiting =
    cut has_memory (used ++ ready i bufs) ≡ Cut.waiting
Scanned has_memory i passed used bufs Scan.bad = cut has_memory (used ++ ready i bufs) ≡ Cut.bad
Scanned has_memory i passed used bufs Scan.exhausted =
    cut has_memory (used ++ ready i bufs) ≡ Cut.exhausted
Scanned has_memory i passed used bufs (Scan.packet bytes end rest) =
    (k : ℕ) × ((end ≡ passed + k)
      × ((length bufs ≡ k + length rest)
          × (cut has_memory (used ++ ready i bufs) ≡ Cut.packet bytes (ready (add64 i k) rest))))

-- One more buffer before, that adds `left` to `used`.
Scanned-before :
    (has_memory : Bool) (i passed : ℕ) (used filled : List ℕ) (b : Buffer) (rest : List Buffer)
    (t : Scan)
    → i < 2 ^ 64
    → used ++ ready i (b ∷ rest) ≡ filled ++ ready (add64 i 1) rest
    → Scanned has_memory (add64 i 1) (suc passed) filled rest t
    → Scanned has_memory i passed used (b ∷ rest) t
unfolding Scanned
Scanned-before has_memory i passed used filled b rest Scan.waiting small e h =
    ap (λ bs. cut has_memory bs) e ∙ h
Scanned-before has_memory i passed used filled b rest Scan.bad small e h =
    ap (λ bs. cut has_memory bs) e ∙ h
Scanned-before has_memory i passed used filled b rest Scan.exhausted small e h =
    ap (λ bs. cut has_memory bs) e ∙ h
Scanned-before has_memory i passed used filled b rest (Scan.packet bytes end left) small e
      (k, (p, (n, h))) =
    let same : add64 (add64 i 1) k ≡ add64 i (suc k) = omega arith in
    (
      suc k,
      (
        omega arith,
        (
          omega arith,
          ap (λ bs. cut has_memory bs) e ∙ h ∙ ap (λ j. Cut.packet bytes (ready j left)) same,
        ),
      ),
    )

module _ (has_memory : Bool) (i passed : ℕ) (used : List ℕ) (b : Buffer) (rest : List Buffer)
    (small : i < 2 ^ 64) (number : (b.sequence_num == add64 i 1) ≡ true)
    (next : (u : List ℕ)
      → cut has_memory u ≡ Cut.waiting
      → Scanned has_memory
          (add64 i 1)
          (suc passed)
          u
          rest
          (scan has_memory (add64 i 1) (suc passed) u rest)) where
  ready_next : ready i (b ∷ rest) ≡ b.left ++ ready (add64 i 1) rest
  unfolding ready
  ready_next = rw number refl

  scan_empty :
      cut has_memory used ≡ Cut.waiting
      → is_empty b.left ≡ true
      → Scanned has_memory i passed used (b ∷ rest) (scan has_memory i passed used (b ∷ rest))
  unfolding scan
  scan_empty w empty =
      let nothing : b.left ≡ [] = is_empty-nil b.left empty in
      let run : scan has_memory i passed used (b ∷ rest)
          ≡ scan has_memory (add64 i 1) (suc passed) used rest =
        rw (number, empty) refl in
      subst (Scanned has_memory i passed used (b ∷ rest)) (sym run) (
        Scanned-before has_memory i passed used used b rest
          (scan has_memory (add64 i 1) (suc passed) used rest) small
          (ap (λ bs. used ++ bs) (ready_next ∙ ap (λ l. l ++ ready (add64 i 1) rest) nothing))
          (next used w))

  scan_complete :
      (bytes left : List ℕ)
      → is_empty b.left ≡ false
      → read_buffer has_memory used b.left ≡ Progress.complete bytes left
      → Reads has_memory used b.left (Progress.complete bytes left)
      → Scanned has_memory i passed used (b ∷ rest) (scan has_memory i passed used (b ∷ rest))
  unfolding scan Scanned Reads ready
  scan_complete bytes left full e h =
      let cuts : cut has_memory (used ++ ready i (b ∷ rest))
          ≡ Cut.packet bytes (left ++ ready (add64 i 1) rest) =
        ap (λ bs. cut has_memory (used ++ bs)) ready_next ∙ h (ready (add64 i 1) rest) in
      elim (Bool-cases (is_empty left)) [
        | inl empty ↦
            let run : scan has_memory i passed used (b ∷ rest)
                ≡ Scan.packet bytes (suc passed) rest =
              rw (number, full, e, empty) refl in
            subst (Scanned has_memory i passed used (b ∷ rest)) (sym run) (
              1,
              (
                omega arith,
                (
                  omega arith,
                  cuts
                      ∙ ap (λ l. Cut.packet bytes (l ++ ready (add64 i 1) rest))
                          (is_empty-nil left empty),
                ),
              ),
            )
        | inr more ↦
            let kept = record b { left = left } in
            let run : scan has_memory i passed used (b ∷ rest)
                ≡ Scan.packet bytes passed (kept ∷ rest) =
              rw (number, full, e, more) refl in
            let same : add64 i 0 ≡ i = omega arith in
            let stays : ready i (kept ∷ rest) ≡ left ++ ready (add64 i 1) rest = rw number refl in
            subst (Scanned has_memory i passed used (b ∷ rest)) (sym run) (
              0,
              (
                omega arith,
                (
                  omega arith,
                  cuts
                      ∙ ap (λ bs. Cut.packet bytes bs) (sym stays)
                      ∙ ap (λ j. Cut.packet bytes (ready j (kept ∷ rest))) (sym same),
                ),
              ),
            )
      ]

  scan_full :
      (p : Progress)
      → is_empty b.left ≡ false
      → read_buffer has_memory used b.left ≡ p
      → Reads has_memory used b.left p
      → Scanned has_memory i passed used (b ∷ rest) (scan has_memory i passed used (b ∷ rest))
  unfolding scan Scanned Reads
  scan_full (Progress.more filled) full e (all, w) =
      let run : scan has_memory i passed used (b ∷ rest)
          ≡ scan has_memory (add64 i 1) (suc passed) filled rest =
        rw (number, full, e) refl in
      subst (Scanned has_memory i passed used (b ∷ rest)) (sym run) (
        Scanned-before has_memory i passed used filled b rest
          (scan has_memory (add64 i 1) (suc passed) filled rest) small
          (ap (λ bs. used ++ bs) ready_next
            ∙ sym (append_assoc used b.left (ready (add64 i 1) rest))
            ∙ ap (λ bs. bs ++ ready (add64 i 1) rest) (sym all))
          (next filled w))
  scan_full Progress.bad full e h =
      let run : scan has_memory i passed used (b ∷ rest) ≡ Scan.bad = rw (number, full, e) refl in
      subst (Scanned has_memory i passed used (b ∷ rest)) (sym run)
        (ap (λ bs. cut has_memory (used ++ bs)) ready_next ∙ h (ready (add64 i 1) rest))
  scan_full Progress.exhausted full e h =
      let run : scan has_memory i passed used (b ∷ rest) ≡ Scan.exhausted =
        rw (number, full, e) refl in
      subst (Scanned has_memory i passed used (b ∷ rest)) (sym run)
        (ap (λ bs. cut has_memory (used ++ bs)) ready_next ∙ h (ready (add64 i 1) rest))
  scan_full (Progress.complete bytes left) full e h = scan_complete bytes left full e h

-- A scan that begins in the middle of a packet, and one that begins with nothing, finds what the ready
-- bytes hold.
pub scan-Scanned :
    (has_memory : Bool) (i passed : ℕ) (used : List ℕ) (bufs : List Buffer)
    → i < 2 ^ 64
    → cut has_memory used ≡ Cut.waiting
    → Scanned has_memory i passed used bufs (scan has_memory i passed used bufs)
unfolding scan Scanned ready
scan-Scanned has_memory i passed used [] small w =
    ap (λ bs. cut has_memory bs) (append-nil used) ∙ w
scan-Scanned has_memory i passed used (b ∷ rest) small w =
    let next : (u : List ℕ)
        → cut has_memory u ≡ Cut.waiting
        → Scanned has_memory (add64 i 1) (suc passed) u rest
            (scan has_memory (add64 i 1) (suc passed) u rest) =
      λ u v. scan-Scanned has_memory (add64 i 1) (suc passed) u rest (omega arith) v in
    elim (Bool-cases (b.sequence_num == add64 i 1)) [
      | inl number ↦ elim (Bool-cases (is_empty b.left)) [
        | inl empty ↦ scan_empty has_memory i passed used b rest small number next w empty
        | inr full ↦
            scan_full has_memory i passed used b rest small number next
              (read_buffer has_memory used b.left) full refl
              (read_buffer-Reads has_memory used b.left w)
      ]
      | inr gap ↦
          let run : scan has_memory i passed used (b ∷ rest) ≡ Scan.waiting = rw gap refl in
          let none_ready : ready i (b ∷ rest) ≡ [] = rw gap refl in
          subst (Scanned has_memory i passed used (b ∷ rest)) (sym run) (
            ap (λ bs. cut has_memory (used ++ bs)) none_ready
            ∙ ap (λ bs. cut has_memory bs) (append-nil used)
            ∙ w)
    ]
