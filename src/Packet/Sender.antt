-- ===== src/Packet/Sender.antt =====
-- CXConnectionObject.cpp, both SendPacket, PreparedAndSendPacket and SendAssembledPacket: how a packet is
-- made and numbered. The body is struct _CX_PACKET_BODY_DATA. A length is stored in a DWORD when the
-- header is written.
pub mod Posted
pub mod Sent
pub mod Delivered
pub mod Coded
use konsan_net.Prelude.{
  ℕ, ◌*◌, ◌%◌, ◌^◌, ltb, Bool, true, false, ◌&&◌, ◌||◌, not, Option, none, some, List, [], ◌∷◌,
  ◌++◌, length, is_empty, ◌==◌, if◌then◌else◌, add64,
}
use konsan_net.Packet.Header.{Header, packet_header_flag, put_dword, encode_header, sum_bytes}

pub record Sender : Type 0 where
  pub send_buffer_index : ℕ
  pub cur_sending_packet_sequence_num : ℕ
  pub encrypt_type : ℕ
  pub compress_type : ℕ
  pub object_id : List ℕ
  pub request_id : List ℕ
  pub asynchronously_mes : Bool

-- What SendPacket asks of the rest of the program: whether m_lpServer and m_pDataParserHandle are set,
-- whether GetCXBufferObj and the thread caches or GetBuffer have memory, whether data is prepared by a
-- task, whether GetFreeTaskObject has one, and CXDataParserImpl::PrepareData, given the types, the data,
-- and the sizes of its output and its cache.
pub record Facilities : Type 0 where
  pub has_server : Bool
  pub has_buffer : Bool
  pub has_cache : Bool
  pub has_parser : Bool
  pub async_prepare_data : Bool
  pub has_task : Bool
  pub prepare_data : ℕ → ℕ → List ℕ → ℕ → ℕ → Option (List ℕ)

-- The received message that is answered: its object's guid and the guid of its request.
pub record Request : Type 0 where
  pub object_guid : List ℕ
  pub request_id : List ℕ

-- PostSend of a numbered buffer, PushTask of a CXTaskPrepareMessage, or `return false` before them.
pub data Sending : Type 0 where
  posted : ℕ → List ℕ → Sending
  prepare_task : ℕ → List ℕ → Sending
  refused : Sending

unfoldable pub packet_body : List ℕ → List ℕ → ℕ → ℕ → List ℕ → List ℕ
packet_body object_guid request_id code num pb_data =
    object_guid ++ request_id ++ put_dword code ++ put_dword num ++ pb_data

unfoldable pub assembled_header : Sender → List ℕ → ℕ → Header
assembled_header s body orign_data_len = record {
  flag = packet_header_flag;
  compress_flag = s.compress_type;
  encrypt_flag = s.encrypt_type;
  data_len = length body;
  check_sum = sum_bytes 0 body;
  orign_data_len = orign_data_len;
}

-- SendAssembledPacket
unfoldable pub send_assembled_packet : Sender → ℕ → List ℕ → ℕ → Sending
send_assembled_packet s num body orign_data_len =
    Sending.posted num (encode_header (assembled_header s body orign_data_len) ++ body)

-- The size that PreparedAndSendPacket gives both buffers.
unfoldable pub prepare_cache_len : ℕ → ℕ
prepare_cache_len n = let twice = n * 2 % 2 ^ 32 in if ltb twice 256 then 256 else twice

-- PreparedAndSendPacket
unfoldable pub prepared_and_send_packet : Facilities → Sender → ℕ → List ℕ → Sending
prepared_and_send_packet f s num body =
    if not (f.has_cache && f.has_buffer)
    then Sending.refused
    else elim (f.prepare_data s.encrypt_type s.compress_type body (prepare_cache_len (length body))
        (prepare_cache_len (length body))) [
          | none ↦ Sending.refused
          | some prepared ↦ send_assembled_packet s num prepared (length body)
        ]

-- The guids of a packet that answers a request, or of one that answers none.
unfoldable pub sent_body : Sender → ℕ → Option Request → List ℕ → List ℕ
sent_body s code none pb_data =
    packet_body s.object_id s.request_id code s.send_buffer_index pb_data
sent_body s code (some m) pb_data =
    packet_body m.object_guid m.request_id code s.send_buffer_index pb_data

unfoldable pub numbered : Sender → Sender
numbered s = record s {
  send_buffer_index = add64 s.send_buffer_index 1;
  cur_sending_packet_sequence_num = add64 s.cur_sending_packet_sequence_num 1;
}

-- SendPacket of a buffer.
unfoldable pub send_buffer : Facilities → ℕ → Option Request → List ℕ → Sender → Sender × Sending
send_buffer f code mes pb_data s =
    let num = s.cur_sending_packet_sequence_num in
    let body = sent_body s code mes pb_data in
    let n = numbered s in
    if s.encrypt_type == 0 && s.compress_type == 0
    then (n, send_assembled_packet n num body (length body))
    else if not f.has_parser
    then (n, Sending.refused)
    else if f.async_prepare_data
    then (if f.has_task
        then (record n { asynchronously_mes = true }, Sending.prepare_task num body)
        else (n, Sending.refused))
    else (n, prepared_and_send_packet f n num body)

-- SendPacket of bytes.
unfoldable pub send_packet : Facilities → ℕ → Option Request → List ℕ → Sender → Sender × Sending
send_packet f code mes pb_data s =
    if is_empty pb_data || not f.has_server
    then (s, Sending.refused)
    else if not f.has_buffer
    then (s, Sending.refused)
    else send_buffer f code mes pb_data s
