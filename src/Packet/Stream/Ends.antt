-- ===== src/Packet/Stream/Ends.antt =====
-- CXConnectionObject.cpp, RecvPacket: the loop ends.
use konsan_net.Prelude.{
  ℕ, zero, suc, ◌+◌, ◌<◌, ◌≤◌, ◌≡◌, ◌≢◌, refl, sym, ap, ◌∙◌, subst, Bool, true, false, List, length,
  ltb, ◌==◌, Bool-cases, inl, inr, arith, add64, length-drop,
}
use konsan_net.Packet.Header.{
  Header, header_len, packet_header_flag, max_chache_size, decode_header,
}
use konsan_net.Packet.Receiver.{Receiver, RecvResult, Surroundings, Handled, recv_loop}
use konsan_net.Packet.Stream.{Cut, cut, judge, cut_body, open_packet, unpack}
use konsan_net.Packet.Stream.Handling.{observed, is_foreign, open_packet-is_foreign}
use konsan_net.Packet.Stream.Loop.{Ready, ready_bytes, unpack_ready, recv_loop-Refines}

-- The bytes that a cut leaves.
left_of : List ℕ → Cut → List ℕ
left_of bytes (Cut.packet p left) = left
left_of bytes Cut.waiting = bytes
left_of bytes Cut.bad = bytes
left_of bytes Cut.exhausted = bytes

is_packet : Cut → Bool
is_packet (Cut.packet p left) = true
is_packet Cut.waiting = false
is_packet Cut.bad = false
is_packet Cut.exhausted = false

cut_body-shrinks :
    (h : Header) (bytes : List ℕ)
    → is_packet (cut_body h bytes) ≡ true
    → length (left_of bytes (cut_body h bytes)) < length bytes
unfolding cut_body left_of is_packet
cut_body-shrinks h bytes p = elim (Bool-cases (ltb (length bytes) (h.data_len + header_len))) [
  | inl e ↦ absurd (let no : is_packet (cut_body h bytes) ≡ false = rw e refl in cc)
  | inr e ↦
      let n = length-drop (h.data_len + header_len) bytes in
      let whole : h.data_len + header_len ≤ length bytes = ground arith in rw e (omega arith)
]

-- A cut of a packet takes at least its header away.
cut-shrinks :
    (has_memory : Bool) (bytes : List ℕ)
    → is_packet (cut has_memory bytes) ≡ true
    → length (left_of bytes (cut has_memory bytes)) < length bytes
unfolding cut judge is_packet
cut-shrinks has_memory bytes p =
    let h = decode_header bytes in
    elim (Bool-cases (ltb (length bytes) header_len)) [
      | inl e ↦ absurd (let no : is_packet (cut has_memory bytes) ≡ false = rw e refl in cc)
      | inr e ↦ elim (Bool-cases (h.flag == packet_header_flag)) [
        | inr f ↦ absurd (let no : is_packet (cut has_memory bytes) ≡ false = rw (e, f) refl in cc)
        | inl f ↦ elim (Bool-cases (ltb max_chache_size h.data_len)) [
          | inl z ↦
              absurd (let no : is_packet (cut has_memory bytes) ≡ false = rw (e, f, z) refl in cc)
          | inr z ↦ elim (Bool-cases has_memory) [
            | inr m ↦
                absurd
                  (let no : is_packet (cut has_memory bytes) ≡ false = rw (e, f, z, m) refl in cc)
            | inl m ↦
                let yes : cut has_memory bytes ≡ cut_body h bytes = rw (e, f, z, m) refl in
                rw yes (cut_body-shrinks h bytes (ap is_packet (sym yes) ∙ p))
          ]
        ]
      ]
    ]

packet-shrinks :
    (has_memory : Bool) (bytes p left : List ℕ)
    → cut has_memory bytes ≡ Cut.packet p left
    → length left < length bytes
unfolding left_of is_packet
packet-shrinks has_memory bytes p left e =
    let less = cut-shrinks has_memory bytes (ap is_packet e) in
    subst (λ c. length (left_of bytes c) < length bytes) e less

-- One round, by what it cuts and what is done with it.
module _ (fuel : ℕ) (s : Surroundings) (bytes : List ℕ) (n : ℕ)
    (next : (left : List ℕ)
      → length left < length bytes
      → (unpack fuel s left (add64 n 1)).result ≢ RecvResult.out_of_fuel) where
  opened_ends :
      (p left : List ℕ) (x : Handled)
      → cut s.has_memory bytes ≡ Cut.packet p left
      → open_packet s p (add64 n 1) ≡ x
      → (unpack (suc fuel) s bytes n).result ≢ RecvResult.out_of_fuel
  unfolding unpack is_foreign
  opened_ends p left (Handled.delivered d) e o =
      let run : (unpack (suc fuel) s bytes n).result ≡ (unpack fuel s left (add64 n 1)).result =
        rw (e, o, unpack) refl in
      λ spent. next left (packet-shrinks s.has_memory bytes p left e) (sym run ∙ spent)
  opened_ends p left (Handled.refused f) e o =
      let run : (unpack (suc fuel) s bytes n).result ≡ f = rw (e, o, unpack) refl in
      let own = open_packet-is_foreign s p (add64 n 1) f o in
      λ spent. absurd (let loud : is_foreign f ≡ true = ap is_foreign (sym run ∙ spent) in cc)

  round_ends :
      (c : Cut)
      → cut s.has_memory bytes ≡ c
      → (unpack (suc fuel) s bytes n).result ≢ RecvResult.out_of_fuel
  unfolding unpack
  round_ends (Cut.packet p left) e = opened_ends p left (open_packet s p (add64 n 1)) e refl
  round_ends Cut.waiting e =
      let run : (unpack (suc fuel) s bytes n).result ≡ RecvResult.return_succeed =
        rw (e, unpack) refl in
      λ spent. absurd (cc)
  round_ends Cut.bad e =
      let run : (unpack (suc fuel) s bytes n).result ≡ RecvResult.bad_packet =
        rw (e, unpack) refl in
      λ spent. absurd (cc)
  round_ends Cut.exhausted e =
      let run : (unpack (suc fuel) s bytes n).result ≡ RecvResult.no_memory = rw (e, unpack) refl in
      λ spent. absurd (cc)

unpack_ends :
    (fuel : ℕ) (s : Surroundings) (bytes : List ℕ) (n : ℕ)
    → length bytes < fuel
    → (unpack fuel s bytes n).result ≢ RecvResult.out_of_fuel
unpack_ends zero s bytes n h = absurd (omega arith)
unpack_ends (suc fuel) s bytes n h =
    round_ends fuel s bytes n (λ left less. unpack_ends fuel s left (add64 n 1) (omega arith))
      (cut s.has_memory bytes) refl

-- With more fuel than there are bytes that are ready, the loop of RecvPacket ends by itself: it waits for
-- more data, or refuses a packet.
pub recv_loop_ends :
    (fuel : ℕ) (s : Surroundings) (r : Receiver)
    → Ready r
    → length (ready_bytes r) < fuel
    → (recv_loop fuel s r).result ≢ RecvResult.out_of_fuel
unfolding unpack_ready observed
recv_loop_ends fuel s r ok enough spent =
    let same = (recv_loop-Refines fuel s r ok).result in
    unpack_ends fuel s (ready_bytes r) r.last_unpacked_message_sequence_num enough
      (sym same ∙ ap observed spent)
