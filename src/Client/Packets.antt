-- ===== src/Client/Packets.antt =====
-- CXCommunicationClient/src/CXTcpClient.cpp: SetSendBufferSize, SetRecvBufferSize, SendPacket, both
-- RecvPacket and ReadLeftData. The data of SendPacket may lie in GetSendBuffer(), but not in
-- m_pbyRealSendBuffer. none is a fault, or a call of the socket that has not returned.
pub mod ToServer
pub mod Pieces
pub mod Reading
pub mod FromServer
pub mod Faults
use konsan_net.Prelude.{
  ℕ, zero, suc, ◌+◌, ◌-◌, ◌*◌, ◌%◌, ◌^◌, Bool, true, false, not, ◌&&◌, ◌||◌, Option, none, some,
  List, [], ◌∷◌, ◌++◌, length, take, drop, is_empty, ltb, leb, ◌==◌, if◌then◌else◌, add32, sub32,
}
use konsan_net.Packet.Header.{
  Header, header_len, packet_header_flag, put_dword, get_dword, encode_header, decode_header,
  sum_bytes,
}
use konsan_net.Packet.Sender.{packet_body}
use konsan_net.Client.Tcp.{TcpClient, Socket, Transferred, close, recv, send, is_usable}

-- What the client takes from outside: whether m_pDataParserHandle is set and memory is had, a new guid,
-- and PrepareData and ParseData, given the types, the data, and the sizes of the output and the cache.
pub record Outside : Type 0 where
  pub has_parser : Bool
  pub has_memory : Bool
  pub new_guid : List ℕ
  pub prepare_data : ℕ → ℕ → List ℕ → ℕ → ℕ → Option (List ℕ)
  pub parse_data : ℕ → ℕ → List ℕ → ℕ → ℕ → Option (List ℕ)

-- The results 0 and -1 to -8.
pub data PacketResult : Type 0 where
  return_succeed : PacketResult
  invalid_parameter : PacketResult
  error : ℕ → PacketResult

-- sizeof(CXPacketData) - 1 and sizeof(CXPacketBodyData) - 1.
abbrev pub packet_data_len : ℕ
packet_data_len = 56

abbrev pub body_data_len : ℕ
body_data_len = 40

unfoldable pub is_coded : ℕ → ℕ → Bool
is_coded encrypt compress = not (encrypt == 0 && compress == 0)

unfoldable pub has_room : ℕ → ℕ → Bool
has_room size len = ltb 0 size && leb size len

-- The new buffers: the old ones are given to delete[], which may not have memory of the pool.
unfoldable pub grow_send_buffers : ℕ → TcpClient → Option TcpClient
grow_send_buffers size c =
    if c.used_memory_cache_pool && not (c.send_buffer_len == 0)
    then none
    else some (record c {
      send_buffer_len = size;
      real_send_buffer = c.allocated;
      allocated = suc c.allocated;
    })

unfoldable pub grow_recv_buffers : ℕ → TcpClient → Option TcpClient
grow_recv_buffers size c =
    if c.used_memory_cache_pool && not (c.recv_buffer_len == 0)
    then none
    else some (record c { recv_buffer_len = size; recv_buffer = [] })

-- SetSendBufferSize and SetRecvBufferSize.
pub data Resized : Type 0 where
  sized : TcpClient → Resized
  no_memory : Resized
  bad_free : Resized

unfoldable pub resized : Option TcpClient → Resized
resized none = Resized.bad_free
resized (some c) = Resized.sized c

unfoldable pub set_send_buffer_size : Bool → ℕ → TcpClient → Resized
set_send_buffer_size has_memory n c =
    let size = add32 n packet_data_len in
    if has_room size c.send_buffer_len
    then Resized.sized c
    else if has_memory
    then resized (grow_send_buffers size c)
    else Resized.no_memory

unfoldable pub set_recv_buffer_size : Bool → ℕ → TcpClient → Resized
set_recv_buffer_size has_memory n c =
    let size = add32 n body_data_len in
    if has_room size c.recv_buffer_len
    then Resized.sized c
    else if has_memory
    then resized (grow_recv_buffers size c)
    else Resized.no_memory

-- The end of a call of SendPacket.
pub record Sent : Type 0 where
  pub result : PacketResult
  pub client : TcpClient
  pub socket : Socket

unfoldable pub packet_header : TcpClient → List ℕ → ℕ → Header
packet_header c body orign_data_len = record {
  flag = packet_header_flag;
  compress_flag = c.compress_type;
  encrypt_flag = c.encrypt_type;
  data_len = length body;
  check_sum = sum_bytes 0 body;
  orign_data_len = orign_data_len;
}

-- The header is built before the body, and both are sent.
unfoldable pub send_assembled : List ℕ → ℕ → TcpClient → Socket → Option Sent
send_assembled body orign_data_len c s =
    elim (send (encode_header (packet_header c body orign_data_len) ++ body) c s) [
      | none ↦ none
      | some t ↦
          if t.complete
          then some (record {
            result = PacketResult.return_succeed;
            client = t.client;
            socket = t.socket;
          })
          else some
              (record { result = PacketResult.error 6; client = close t.client; socket = t.socket })
    ]

-- The body, which PrepareData codes where the types ask for it.
unfoldable pub prepared_body : Outside → List ℕ → TcpClient → Option (List ℕ)
prepared_body o body c =
    let real = c.send_buffer_len * 2 % 2 ^ 32 in
    if is_coded c.encrypt_type c.compress_type
    then o.prepare_data c.encrypt_type c.compress_type body (sub32 real header_len) real
    else some body

unfoldable pub client_body : ℕ → List ℕ → TcpClient → List ℕ
client_body code pb_data c = packet_body c.rpc_object_guid c.request_id code c.packet_number pb_data

unfoldable pub next_packet : TcpClient → TcpClient
next_packet c = record c { packet_number = add32 c.packet_number 1 }

-- The rest of SendPacket; pbyBodyData is a pointer into the buffer `before`.
unfoldable pub send_in_buffers : Outside → ℕ → ℕ → List ℕ → TcpClient → Socket → Option Sent
send_in_buffers o before code pb_data c s =
    let n = next_packet c in
    let body = client_body code pb_data n in
    if not (c.real_send_buffer == before) then none else elim (prepared_body o body n) [
      | none ↦ some (record { result = PacketResult.error 3; client = n; socket = s })
      | some prepared ↦ send_assembled prepared (length body) n s
    ]

unfoldable pub sized_buffers : Outside → Bool → ℕ → TcpClient → Resized
sized_buffers o in_send_buffer n c =
    if in_send_buffer then Resized.sized c else set_send_buffer_size o.has_memory n c

-- SendPacket of data that is not NULL; `in_send_buffer` says that it lies in m_pbySendBuffer.
unfoldable pub send_packet : Outside → Bool → ℕ → List ℕ → TcpClient → Socket → Option Sent
send_packet o in_send_buffer code pb_data c s =
    let asked = record c { request_id = o.new_guid } in
    if ltb (2 ^ 30) (length pb_data)
    then some (record { result = PacketResult.invalid_parameter; client = c; socket = s })
    else if is_coded c.encrypt_type c.compress_type && not o.has_parser
    then some (record { result = PacketResult.invalid_parameter; client = c; socket = s })
    else elim (sized_buffers o in_send_buffer (length pb_data) asked) [
      | Resized.bad_free ↦ none
      | Resized.no_memory ↦
          some (record { result = PacketResult.error 2; client = asked; socket = s })
      | Resized.sized n ↦ send_in_buffers o c.real_send_buffer code pb_data n s
    ]

-- RecvPacket: the message's code and data are in the buffer.
pub record Received : Type 0 where
  pub result : PacketResult
  pub read_bytes : ℕ
  pub mes_code : ℕ
  pub client : TcpClient
  pub socket : Socket

unfoldable pub stopped : PacketResult → TcpClient → Socket → Received
stopped e c s = record { result = e; read_bytes = 0; mes_code = 0; client = c; socket = s }

unfoldable pub overwrite : List ℕ → List ℕ → List ℕ
overwrite new old = new ++ drop (length new) old

unfoldable pub same_bytes : List ℕ → List ℕ → Bool
same_bytes [] [] = true
same_bytes [] (y ∷ ys) = false
same_bytes (x ∷ xs) [] = false
same_bytes (x ∷ xs) (y ∷ ys) = x == y && same_bytes xs ys

-- The object's guid is taken from the first reply to the request that has another.
unfoldable pub align_object : TcpClient → TcpClient
align_object c =
    let object = take 16 c.recv_buffer in
    let request = take 16 (drop 16 c.recv_buffer) in
    if not c.get_real_object_id
      && not (same_bytes object c.rpc_object_guid)
      && same_bytes request c.request_id
    then record c { rpc_object_guid = object; get_real_object_id = true }
    else c

-- The message is in the buffer, `n` bytes of it.
unfoldable pub accept_body : ℕ → TcpClient → Socket → Received
accept_body n c s = record {
  result = PacketResult.return_succeed;
  read_bytes = sub32 n body_data_len;
  mes_code = get_dword c.recv_buffer 32;
  client = align_object c;
  socket = s;
}

-- memcpy of what ParseData gave, into a buffer that may be too short for it.
unfoldable pub accept_parsed : List ℕ → TcpClient → Socket → Option Received
accept_parsed parsed c s =
    if ltb c.recv_buffer_len (length parsed)
    then none
    else some
        (accept_body (length parsed) (record c { recv_buffer = overwrite parsed c.recv_buffer }) s)

unfoldable pub parse_body : Outside → Header → List ℕ → TcpClient → Socket → Option Received
parse_body o h body c s =
    let parser_len = c.recv_buffer_len * 2 % 2 ^ 32 in
    if not (is_coded h.encrypt_flag h.compress_flag)
    then some (accept_body (length body) c s)
    else if not o.has_parser
    then some (stopped (PacketResult.error 3) c s)
    else elim (o.parse_data h.encrypt_flag h.compress_flag body parser_len parser_len) [
      | none ↦ some (stopped (PacketResult.error 3) c s)
      | some parsed ↦ accept_parsed parsed c s
    ]

unfoldable pub recv_body : Outside → Header → TcpClient → Socket → Option Received
recv_body o h c s = elim (recv h.data_len c s) [
  | none ↦ none
  | some t ↦
      let filled = record (t.client) { recv_buffer = overwrite t.bytes t.client.recv_buffer } in
      if t.complete
      then parse_body o h t.bytes filled t.socket
      else some (stopped (PacketResult.error 7) filled t.socket)
]

unfoldable pub check_header : Outside → Header → TcpClient → Socket → Option Received
check_header o h c s =
    if ltb (2 ^ 30) h.data_len
    then some (stopped (PacketResult.error 4) (close c) s)
    else if not (h.flag == packet_header_flag)
    then some (stopped (PacketResult.error 5) (close c) s)
    else elim (set_recv_buffer_size o.has_memory h.data_len c) [
      | Resized.bad_free ↦ none
      | Resized.no_memory ↦ some (stopped (PacketResult.error 6) c s)
      | Resized.sized n ↦ recv_body o h n s
    ]

-- RecvPacket into the client's buffer.
unfoldable pub recv_packet : Outside → TcpClient → Socket → Option Received
recv_packet o c s =
    let fresh = record c { left_data_begin_pos = 0; left_recv_data_len = 0 } in
    if not (is_usable c)
    then some (stopped (PacketResult.error 2) c s)
    else elim (recv header_len fresh s) [
      | none ↦ none
      | some t ↦
          if t.complete
          then check_header o (decode_header t.bytes) t.client t.socket
          else some (stopped (PacketResult.error 3) t.client t.socket)
    ]

-- RecvPacket into `size` bytes that are not NULL: what was copied, and -8 where data is left. An
-- iRecvLen that is negative, from a body without its guids and codes, copies nothing, and iReadBytes is
-- then the caller's own.
pub record Copied : Type 0 where
  pub copied : List ℕ
  pub received : Received

unfoldable pub is_positive : ℕ → Bool
is_positive n = ltb 0 n && ltb n (2 ^ 31)

unfoldable pub message_bytes : ℕ → TcpClient → List ℕ
message_bytes n c = take n (drop body_data_len c.recv_buffer)

unfoldable pub copy_message : ℕ → Received → Copied
copy_message size r =
    if not (is_positive r.read_bytes)
    then record { copied = []; received = r }
    else if ltb size r.read_bytes
    then record {
      copied = message_bytes size r.client;
      received = record r {
        result = PacketResult.error 8;
        read_bytes = size;
        client = record (r.client) {
          left_recv_data_len = r.read_bytes - size;
          left_data_begin_pos = size;
        };
      };
    }
    else record { copied = message_bytes r.read_bytes r.client; received = r }

unfoldable pub copy_received : ℕ → Received → Copied
copy_received size r = elim (r.result) [
  | PacketResult.return_succeed ↦ copy_message size r
  | PacketResult.invalid_parameter ↦ record { copied = []; received = r }
  | PacketResult.error e ↦ record { copied = []; received = r }
]

unfoldable pub recv_packet_data : Outside → ℕ → TcpClient → Socket → Option Copied
recv_packet_data o size c s =
    elim (recv_packet o (record c { left_data_begin_pos = 0; left_recv_data_len = 0 }) s) [
      | none ↦ none
      | some r ↦ some (copy_received size r)
    ]

-- ReadLeftData: its result, the bytes, and the client.
unfoldable pub read_left_data : ℕ → TcpClient → Bool × List ℕ × TcpClient
read_left_data size c =
    if c.left_recv_data_len == 0
    then (true, [], c)
    else if ltb size c.left_recv_data_len
    then (false, [], c)
    else (
      true,
      take c.left_recv_data_len (drop (body_data_len + c.left_data_begin_pos) c.recv_buffer),
      record c { left_recv_data_len = 0; left_data_begin_pos = 0 },
    )
