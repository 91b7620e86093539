-- ===== src/Packet/Stream.antt =====
-- CXConnectionObject.cpp, RecvPacket, seen from the stream: the bytes that are ready, however the
-- buffers cut them, and the loop over these bytes.
pub mod Chunks
pub mod Scanned
pub mod Handling
pub mod Loop
pub mod Ends
use konsan_net.Prelude.{
  ℕ, zero, suc, ◌+◌, ◌-◌, ◌≡◌, refl, Bool, true, false, not, Option, none, some, List, [], ◌∷◌,
  ◌++◌, length, take, drop, ltb, ◌==◌, if◌then◌else◌, add64,
}
use konsan_net.Packet.Header.{
  Header, header_len, packet_header_flag, max_chache_size, decode_header, verify_packet_body_data,
}
use konsan_net.Packet.Receiver.{Buffer, Surroundings, Delivery, RecvResult, Handled, handle_packet}

-- The data of the buffers that follow number i without a gap.
unfoldable pub ready : ℕ → List Buffer → List ℕ
ready i [] = []
ready i (b ∷ rest) = if b.sequence_num == add64 i 1 then b.left ++ ready (add64 i 1) rest else []

-- What the front of a stream is.
pub data Cut : Type 0 where
  waiting : Cut
  bad : Cut
  exhausted : Cut
  packet : List ℕ → List ℕ → Cut

unfoldable pub cut_body : Header → List ℕ → Cut
cut_body h bytes =
    let packet_len = h.data_len + header_len in
    if ltb (length bytes) packet_len
    then Cut.waiting
    else Cut.packet (take packet_len bytes) (drop packet_len bytes)

unfoldable pub judge : Bool → Header → List ℕ → Cut
judge has_memory h bytes =
    if not (h.flag == packet_header_flag)
    then Cut.bad
    else if ltb max_chache_size h.data_len
    then Cut.bad
    else if has_memory
    then cut_body h bytes
    else Cut.exhausted

unfoldable pub cut : Bool → List ℕ → Cut
cut has_memory bytes =
    if ltb (length bytes) header_len
    then Cut.waiting
    else judge has_memory (decode_header bytes) bytes

-- What the loop does with a packet.
unfoldable pub open_packet : Surroundings → List ℕ → ℕ → Handled
open_packet s bytes n =
    let h = decode_header bytes in
    let body = drop header_len bytes in
    if verify_packet_body_data h body
    then handle_packet s h body n
    else Handled.refused RecvResult.bad_packet

-- The deliveries, how the loop ended, the bytes it left, and the number of the last message.
pub record Unpacked : Type 0 where
  pub deliveries : List Delivery
  pub result : RecvResult
  pub left : List ℕ
  pub sequence_num : ℕ

abbrev pub ended : RecvResult → List ℕ → ℕ → Unpacked
ended e bytes n = record { deliveries = []; result = e; left = bytes; sequence_num = n }

abbrev pub after : Delivery → Unpacked → Unpacked
after d u = record u { deliveries = d ∷ u.deliveries }

unfoldable pub unpack : ℕ → Surroundings → List ℕ → ℕ → Unpacked
unpack zero s bytes n = ended RecvResult.out_of_fuel bytes n
unpack (suc fuel) s bytes n = elim (cut s.has_memory bytes) [
  | Cut.waiting ↦ ended RecvResult.return_succeed bytes n
  | Cut.bad ↦ ended RecvResult.bad_packet bytes n
  | Cut.exhausted ↦ ended RecvResult.no_memory bytes n
  | Cut.packet bs left ↦ elim (open_packet s bs (add64 n 1)) [
    | Handled.refused e ↦ ended e left (add64 n 1)
    | Handled.delivered d ↦ after d (unpack fuel s left (add64 n 1))
  ]
]
