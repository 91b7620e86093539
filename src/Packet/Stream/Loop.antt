-- ===== src/Packet/Stream/Loop.antt =====
-- CXConnectionObject.cpp, RecvPacket: the whole loop over the buffers against the loop over the stream.
use konsan_net.Prelude.{
  ℕ, zero, suc, ◌+◌, ◌^◌, ◌<◌, ◌≡◌, refl, sym, ap, ◌∙◌, Bool, List, [], ◌∷◌, length, drop,
  Bool-cases, inl, inr, arith, add64,
}
use konsan_net.Packet.Header.{header_len, decode_header, verify_packet_body_data}
use konsan_net.Packet.Receiver.{
  Buffer, Receiver, Received, RecvResult, Surroundings, Scan, Handled, Delivery, scan, stop,
  deliver, finish_packet, unpacked, handle_packet, recv_loop,
}
use konsan_net.Packet.Stream.{Cut, Unpacked, cut, ready, open_packet, unpack, ended, after}
use konsan_net.Packet.Stream.Handling.{observed, handle_packet-observed}
use konsan_net.Packet.Stream.Scanned.{Scanned, scan-Scanned}

-- The loop over the buffers ended as the loop over the bytes did, a NULL dereference taken for a bad packet,
-- with its buffers counted.
pub record Refines (g : Received) (u : Unpacked) : Type 0 where
  pub deliveries : g.deliveries ≡ u.deliveries
  pub result : observed g.result ≡ u.result
  pub left : ready g.receiver.last_process_buffer_index g.receiver.read_buffers ≡ u.left
  pub sequence_num : g.receiver.last_unpacked_message_sequence_num ≡ u.sequence_num
  pub counted : g.receiver.number_of_received_buffer_in_list ≡ length g.receiver.read_buffers

-- The bytes that a receiver has ready, and how they are unpacked.
unfoldable pub ready_bytes : Receiver → List ℕ
ready_bytes r = ready r.last_process_buffer_index r.read_buffers

unfoldable pub unpack_ready : ℕ → Surroundings → Receiver → Unpacked
unpack_ready fuel s r = unpack fuel s (ready_bytes r) r.last_unpacked_message_sequence_num

pub record Ready (r : Receiver) : Type 0 where
  pub index : r.last_process_buffer_index < 2 ^ 64
  pub counted : r.number_of_received_buffer_in_list ≡ length r.read_buffers
  pub few : length r.read_buffers < 2 ^ 64

module _ (fuel : ℕ) (s : Surroundings) (r : Receiver) (ok : Ready r)
    (next : (n : Receiver) → Ready n → Refines (recv_loop fuel s n) (unpack_ready fuel s n)) where
  module _ (bytes : List ℕ) (passed : ℕ) (rest : List Buffer)
      (found : scan s.has_memory r.last_process_buffer_index 0 [] r.read_buffers
        ≡ Scan.packet bytes passed rest)
      (long : length r.read_buffers ≡ passed + length rest)
      (cuts : cut s.has_memory (ready r.last_process_buffer_index r.read_buffers)
        ≡ Cut.packet bytes (ready (add64 r.last_process_buffer_index passed) rest)) where
    abbrev num : ℕ
    num = add64 r.last_unpacked_message_sequence_num 1

    abbrev then_receiver : Receiver
    then_receiver = unpacked (decode_header bytes) passed rest r

    refuse :
        (e f : RecvResult)
        → finish_packet s bytes passed rest r ≡ Handled.refused e
        → open_packet s bytes num ≡ Handled.refused f
        → observed e ≡ f
        → Refines (recv_loop (suc fuel) s r) (unpack_ready (suc fuel) s r)
    unfolding recv_loop unpack unpack_ready unpacked ready_bytes
    refuse e f fin opened same = ground arith

    then_Ready : Ready then_receiver
    unfolding unpacked
    then_Ready =
        let counted = ok.counted in
        let few = ok.few in record { index = omega arith; counted = omega arith; few = omega arith }

    hand_on :
        (d : Delivery)
        → finish_packet s bytes passed rest r ≡ Handled.delivered d
        → open_packet s bytes num ≡ Handled.delivered d
        → Refines (recv_loop (suc fuel) s r) (unpack_ready (suc fuel) s r)
    unfolding recv_loop unpack unpack_ready unpacked ready_bytes
    hand_on d fin opened =
        let loops : recv_loop (suc fuel) s r ≡ deliver d (recv_loop fuel s then_receiver) =
          rw (found, fin, recv_loop) refl in
        let unpacks : unpack_ready (suc fuel) s r ≡ after d (unpack_ready fuel s then_receiver) =
          rw (cuts, opened, unpack) refl in
        let later = next then_receiver then_Ready in
        rw (loops, unpacks)
          (record {
            deliveries = ap (λ ds. d ∷ ds) later.deliveries;
            result = later.result;
            left = later.left;
            sequence_num = later.sequence_num;
            counted = later.counted;
          })

    handled :
        (x : Handled)
        → finish_packet s bytes passed rest r ≡ x
        → open_packet s bytes num ≡ x
        → handle_packet s (decode_header bytes) (drop header_len bytes) num ≡ x
        → Refines (recv_loop (suc fuel) s r) (unpack_ready (suc fuel) s r)
    handled (Handled.delivered d) fin opened from = hand_on d fin opened
    handled (Handled.refused e) fin opened from =
        refuse e e fin opened
          (handle_packet-observed s (decode_header bytes) (drop header_len bytes) num e from)

    wrong_sum :
        (bs : List Buffer)
        → finish_packet s bytes passed rest r
          ≡ Handled.refused (elim bs [ [] ↦ RecvResult.fault | c ∷ cs ↦ RecvResult.bad_packet ])
        → open_packet s bytes num ≡ Handled.refused RecvResult.bad_packet
        → Refines (recv_loop (suc fuel) s r) (unpack_ready (suc fuel) s r)
    unfolding observed
    wrong_sum [] fin opened = refuse RecvResult.fault RecvResult.bad_packet fin opened refl
    wrong_sum (c ∷ cs) fin opened =
        refuse RecvResult.bad_packet RecvResult.bad_packet fin opened refl

    checked : Refines (recv_loop (suc fuel) s r) (unpack_ready (suc fuel) s r)
    unfolding finish_packet open_packet observed
    checked =
        elim (Bool-cases (verify_packet_body_data (decode_header bytes) (drop header_len bytes))) [
          | inl good ↦
              handled (handle_packet s (decode_header bytes) (drop header_len bytes) num)
                (rw good refl) (rw good refl) refl
          | inr wrong ↦ wrong_sum rest (rw wrong refl) (rw wrong refl)
        ]

stopped :
    (fuel : ℕ) (s : Surroundings) (r : Receiver)
    → Ready r
    → (e f : RecvResult) → recv_loop (suc fuel) s r ≡ stop e r
    → unpack_ready (suc fuel) s r ≡ ended f (ready_bytes r) r.last_unpacked_message_sequence_num
    → observed e ≡ f
    → Refines (recv_loop (suc fuel) s r) (unpack_ready (suc fuel) s r)
unfolding ready_bytes
stopped fuel s r ok e f loops unpacks same = ground arith

cut-nil : (has_memory : Bool) → cut has_memory [] ≡ Cut.waiting
unfolding cut
cut-nil has_memory = refl

-- A round of the loop, by what the scan found.
round :
    (fuel : ℕ) (s : Surroundings) (r : Receiver)
    → Ready r
    → ((n : Receiver) → Ready n → Refines (recv_loop fuel s n) (unpack_ready fuel s n))
    → (t : Scan) → scan s.has_memory r.last_process_buffer_index 0 [] r.read_buffers ≡ t
    → Scanned s.has_memory r.last_process_buffer_index 0 [] r.read_buffers t
    → Refines (recv_loop (suc fuel) s r) (unpack_ready (suc fuel) s r)
unfolding Scanned recv_loop unpack unpack_ready ready_bytes observed
round fuel s r ok next Scan.waiting found cuts =
    stopped fuel s r ok RecvResult.return_succeed RecvResult.return_succeed
      (rw (found, recv_loop) refl) (rw (cuts, unpack) refl) refl
round fuel s r ok next Scan.bad found cuts =
    stopped fuel s r ok RecvResult.bad_packet RecvResult.bad_packet (rw (found, recv_loop) refl)
      (rw (cuts, unpack) refl) refl
round fuel s r ok next Scan.exhausted found cuts =
    stopped fuel s r ok RecvResult.no_memory RecvResult.no_memory (rw (found, recv_loop) refl)
      (rw (cuts, unpack) refl) refl
round fuel s r ok next (Scan.packet bytes passed rest) found (k, (p, (long, cuts))) =
    let same : passed ≡ k = omega arith in
    checked fuel s r ok next bytes passed rest found (omega arith) (
      cuts
      ∙ ap (λ j. Cut.packet bytes (ready (add64 r.last_process_buffer_index j) rest)) (sym same))

-- On any buffers that are counted right, the loop over the buffers delivers the messages that the loop over
-- their ready bytes delivers, keeps the same bytes and the same number, and its count of buffers is right.
-- Both end with the same result, but that where the loop over the bytes returns that a packet is bad, the
-- loop over the buffers either does so too or dereferences NULL.
pub recv_loop-Refines :
    (fuel : ℕ) (s : Surroundings) (r : Receiver)
    → Ready r
    → Refines (recv_loop fuel s r) (unpack_ready fuel s r)
unfolding recv_loop unpack unpack_ready ready_bytes observed
recv_loop-Refines zero s r ok = record {
  deliveries = refl;
  result = refl;
  left = refl;
  sequence_num = refl;
  counted = ok.counted;
}
recv_loop-Refines (suc fuel) s r ok =
    round fuel s r ok (λ n good. recv_loop-Refines fuel s n good)
      (scan s.has_memory r.last_process_buffer_index 0 [] r.read_buffers) refl
      (scan-Scanned s.has_memory r.last_process_buffer_index 0 [] r.read_buffers ok.index
        (cut-nil s.has_memory))
