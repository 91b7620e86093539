-- ===== src/Packet/Receiver.antt =====
-- CXCommunicationServer/src/CXConnectionObject.cpp, RecvPacket: the buffers of a stream, in the order of
-- their numbers, are cut into packets. A buffer is its number and its left data, wsaBuf.len bytes from
-- nCurDataPointer. PushReceivedBuffer keeps the list; Server/Sequence has its pointers. `used` are the
-- bytes of the current packet that were copied, the header's and the body's; the index of the buffer
-- that comes next is uiPacketIndex + 1. What is done with a packet is listed in `deliveries`.
use konsan_net.Prelude.{
  ℕ, zero, suc, ◌+◌, ◌-◌, ◌*◌, ◌%◌, ◌^◌, ◌||◌, leb, add32, sub32, Bool, ◌&&◌, not, Option, none,
  some, List, [], ◌∷◌, ◌++◌, length, take, drop, is_empty, ltb, ◌==◌, if◌then◌else◌, add64, sub64,
}
use konsan_net.Packet.Header.{
  Header, header_len, packet_header_flag, max_chache_size, decode_header, verify_packet_body_data,
}

pub record Buffer : Type 0 where
  pub sequence_num : ℕ
  pub left : List ℕ

pub record Receiver : Type 0 where
  pub read_buffers : List Buffer
  pub last_process_buffer_index : ℕ
  pub number_of_received_buffer_in_list : ℕ
  pub posted_recv_buffers : ℕ
  pub last_unpacked_message_sequence_num : ℕ
  pub encrypt_type : ℕ
  pub compress_type : ℕ

-- What RecvPacket asks of the rest of the program: whether m_lpServer and m_pDataParserHandle are set,
-- whether the data is parsed by a task, whether GetFreeTaskObject has one, whether GetBuffer has memory,
-- and CXDataParserImpl::ParseData, given the types, the data, and the sizes of its output and its cache.
pub record Surroundings : Type 0 where
  pub has_server : Bool
  pub has_parser : Bool
  pub async_parse_data : Bool
  pub has_task : Bool
  pub has_memory : Bool
  pub parse_data : ℕ → ℕ → List ℕ → ℕ → ℕ → Option (List ℕ)

-- PushReceivedMessage of a message, or PushTask of a CXTaskParseMessage.
pub data Delivery : Type 0 where
  message : ℕ → List ℕ → Delivery
  parse_task : ℕ → Header → List ℕ → Delivery

-- The results, -3, -4, -5 and -6 among them; `fault` is a NULL read for a log line.
pub data RecvResult : Type 0 where
  return_succeed : RecvResult
  invalid_parameter : RecvResult
  no_memory : RecvResult
  bad_packet : RecvResult
  parse_failed : RecvResult
  no_parser : RecvResult
  fault : RecvResult
  out_of_fuel : RecvResult

-- One buffer's part in the loop: the bytes copied so far, an error, or the packet and the data left.
pub data Progress : Type 0 where
  more : List ℕ → Progress
  bad : Progress
  exhausted : Progress
  complete : List ℕ → List ℕ → Progress

unfoldable pub copy_body : List ℕ → List ℕ → Progress
copy_body used left =
    let packet_len = (decode_header used).data_len + header_len in
    let need = packet_len - length used in
    let filled = used ++ take need left in
    if ltb (length filled) packet_len
    then Progress.more filled
    else Progress.complete filled (drop need left)

unfoldable pub check_header : Bool → List ℕ → List ℕ → Progress
check_header has_memory used left =
    let h = decode_header used in
    if not (h.flag == packet_header_flag)
    then Progress.bad
    else if ltb max_chache_size h.data_len
    then Progress.bad
    else if has_memory
    then copy_body used left
    else Progress.exhausted

unfoldable pub read_buffer : Bool → List ℕ → List ℕ → Progress
read_buffer has_memory used left =
    let need = header_len - length used in
    let filled = used ++ take need left in
    if ltb (length filled) header_len
    then Progress.more filled
    else check_header has_memory filled (drop need left)

-- The loop up to the end of one packet: `passed` counts the buffers before pCurBuf.
pub data Scan : Type 0 where
  waiting : Scan
  bad : Scan
  exhausted : Scan
  packet : List ℕ → ℕ → List Buffer → Scan

unfoldable pub scan : Bool → ℕ → ℕ → List ℕ → List Buffer → Scan
scan has_memory i passed used [] = Scan.waiting
scan has_memory i passed used (b ∷ rest) =
    let next = λ (u : List ℕ). scan has_memory (add64 i 1) (suc passed) u rest in
    if not (b.sequence_num == add64 i 1)
    then Scan.waiting
    else if is_empty b.left
    then next used
    else elim (read_buffer has_memory used b.left) [
      | Progress.more filled ↦ next filled
      | Progress.bad ↦ Scan.bad
      | Progress.exhausted ↦ Scan.exhausted
      | Progress.complete bytes left ↦
          if is_empty left
          then Scan.packet bytes (suc passed) rest
          else Scan.packet bytes passed ((record b { left = left }) ∷ rest)
    ]

-- The state after a packet was cut off: its buffers are freed.
unfoldable pub unpacked : Header → ℕ → List Buffer → Receiver → Receiver
unpacked h passed rest r = record r {
  read_buffers = rest;
  last_process_buffer_index = add64 r.last_process_buffer_index passed;
  number_of_received_buffer_in_list = sub64 r.number_of_received_buffer_in_list passed;
  last_unpacked_message_sequence_num = add64 r.last_unpacked_message_sequence_num 1;
  encrypt_type = h.encrypt_flag;
  compress_type = h.compress_flag;
}

-- The size of ParseMessage's thread cache, and what it leaves of its output buffer behind the head of a
-- CXMessageData, which has 92 bytes before the data.
unfoldable pub parse_cache_len : ℕ → ℕ
parse_cache_len n =
    let twice = n * 2 % 2 ^ 32 in if ltb twice 256 || leb (2 ^ 31) twice then 256 else twice

unfoldable pub parse_output_len : ℕ → ℕ
parse_output_len n =
    let whole = add32 n 92 in if ltb whole 512 then 420 else sub32 (add32 whole 256) 92

-- ParseMessage
unfoldable pub parse_message : Surroundings → Header → List ℕ → Option (List ℕ)
parse_message s h body =
    if not (s.has_server && s.has_memory)
    then none
    else elim (s.parse_data h.encrypt_flag h.compress_flag body (parse_output_len h.orign_data_len)
        (parse_cache_len h.orign_data_len)) [
          | none ↦ none
          | some parsed ↦ if length parsed == h.orign_data_len then some parsed else none
        ]

-- A packet with compressed or encrypted data, and any packet whose check sum is right.
pub data Handled : Type 0 where
  delivered : Delivery → Handled
  refused : RecvResult → Handled

unfoldable pub handle_coded : Surroundings → Header → List ℕ → ℕ → Handled
handle_coded s h body n =
    if not s.has_parser
    then Handled.refused RecvResult.no_parser
    else if s.async_parse_data
    then (if s.has_task
        then Handled.delivered (Delivery.parse_task n h body)
        else Handled.refused RecvResult.no_memory)
    else elim (parse_message s h body) [
      | none ↦ Handled.refused RecvResult.parse_failed
      | some parsed ↦ Handled.delivered (Delivery.message n parsed)
    ]

unfoldable pub handle_packet : Surroundings → Header → List ℕ → ℕ → Handled
handle_packet s h body n =
    if h.encrypt_flag == 0 && h.compress_flag == 0
    then Handled.delivered (Delivery.message n body)
    else handle_coded s h body n

pub record Received : Type 0 where
  pub deliveries : List Delivery
  pub result : RecvResult
  pub receiver : Receiver

abbrev pub stop : RecvResult → Receiver → Received
stop e r = record { deliveries = []; result = e; receiver = r }

abbrev pub deliver : Delivery → Received → Received
deliver d g = record g { deliveries = d ∷ g.deliveries }

-- A packet cut off, up to what is done with it. Where the check sum is wrong, the log line reads pCurBuf.
unfoldable pub finish_packet : Surroundings → List ℕ → ℕ → List Buffer → Receiver → Handled
finish_packet s bytes passed rest r =
    let h = decode_header bytes in
    let body = drop header_len bytes in
    if verify_packet_body_data h body
    then handle_packet s h body (add64 r.last_unpacked_message_sequence_num 1)
    else Handled.refused (elim rest [ [] ↦ RecvResult.fault | b ∷ bs ↦ RecvResult.bad_packet ])

-- The loop of RecvPacket, one packet in each round.
unfoldable pub recv_loop : ℕ → Surroundings → Receiver → Received
recv_loop zero s r = stop RecvResult.out_of_fuel r
recv_loop (suc fuel) s r =
    elim (scan s.has_memory r.last_process_buffer_index 0 [] r.read_buffers) [
      | Scan.waiting ↦ stop RecvResult.return_succeed r
      | Scan.bad ↦ stop RecvResult.bad_packet r
      | Scan.exhausted ↦ stop RecvResult.no_memory r
      | Scan.packet bytes passed rest ↦
          let n = unpacked (decode_header bytes) passed rest r in
          elim (finish_packet s bytes passed rest r) [
            | Handled.refused e ↦ stop e n
            | Handled.delivered d ↦ deliver d (recv_loop fuel s n)
          ]
    ]

-- PushReceivedBuffer: before the first buffer with a larger number. A number that the last buffer has
-- already is left out.
unfoldable pub push_buffer : Buffer → List Buffer → List Buffer
push_buffer b [] = b ∷ []
push_buffer b (x ∷ []) =
    if ltb b.sequence_num x.sequence_num
    then b ∷ x ∷ []
    else if ltb x.sequence_num b.sequence_num
    then x ∷ b ∷ []
    else x ∷ []
push_buffer b (x ∷ y ∷ ys) =
    let rest = push_buffer b (y ∷ ys) in
    if ltb b.sequence_num x.sequence_num then b ∷ x ∷ y ∷ ys else x ∷ rest

unfoldable pub push_received : Buffer → Receiver → Receiver
push_received b r = record r {
  read_buffers = push_buffer b r.read_buffers;
  number_of_received_buffer_in_list = add64 r.number_of_received_buffer_in_list 1;
  posted_recv_buffers = sub64 r.posted_recv_buffers 1;
}

-- RecvPacket of a buffer that is not NULL.
unfoldable pub recv_packet : ℕ → Surroundings → Buffer → Receiver → Received
recv_packet fuel s b r =
    if s.has_server
    then recv_loop fuel s (push_received b r)
    else stop RecvResult.invalid_parameter r
