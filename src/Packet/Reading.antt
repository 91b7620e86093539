-- ===== src/Packet/Reading.antt =====
-- CXCommunicationServer/src/CXConnectionObject.cpp, without WIN32: RecvData, SendData, and the counters of
-- posted buffers. The answers of `recv` are a script, one for each call.
pub mod Filling
pub mod Reads
use konsan_net.Prelude.{
  ℕ, suc, ◌+◌, ◌-◌, Bool, true, false, not, Option, none, some, List, [], ◌∷◌, ◌++◌, length, take,
  drop, is_empty, ltb, leb, ◌==◌, if◌then◌else◌, add64, sub64,
}
use konsan_net.Packet.Receiver.{Buffer}
use konsan_net.Packet.Closing.{Link, is_ending}
use konsan_net.Packet.Sending.{Answer}

-- Bytes (never none), or -1 with EAGAIN, EINTR, or another error, or 0.
pub data Input : Type 0 where
  bytes : ℕ → List ℕ → Input
  again : Input
  interrupted : Input
  failed : Input
  peer_closed : Input

-- The bytes of one buffer and nRet without its sign; none is a call of `recv` that has not answered.
pub record Filled : Type 0 where
  pub data_read : List ℕ
  pub code : ℕ

-- The loop of RecvData: `room` is nLeftBufLen. A call gives no more bytes than there is room for.
unfoldable pub recv_bytes : List Input → ℕ → List ℕ → Option Filled
recv_bytes [] room read = if room == 0 then some (record { data_read = read; code = 0 }) else none
recv_bytes (Input.bytes b bs ∷ script) room read =
    let got = take room (b ∷ bs) in
    let rest = recv_bytes script (room - length got) (read ++ got) in
    if room == 0 then some (record { data_read = read; code = 0 }) else rest
recv_bytes (Input.again ∷ script) room read =
    some (record { data_read = read; code = if room == 0 then 0 else 1 })
recv_bytes (Input.interrupted ∷ script) room read =
    let rest = recv_bytes script room read in
    if room == 0 then some (record { data_read = read; code = 0 }) else rest
recv_bytes (Input.failed ∷ script) room read =
    some (record { data_read = read; code = if room == 0 then 0 else 2 })
recv_bytes (Input.peer_closed ∷ script) room read =
    some (record { data_read = read; code = if room == 0 then 0 else 3 })

-- m_uiRecvBufferIndex and the connection with m_uiPostedRecvBuffers.
pub record Reader : Type 0 where
  pub recv_buffer_index : ℕ
  pub link : Link

unfoldable pub add_posted : Link → Link
add_posted l = record l { posted_recv_buffers = add64 l.posted_recv_buffers 1 }

-- The new buffer of RecvData, if it has data, and nRet. Without data the index goes back.
pub record ReadOut : Type 0 where
  pub buffer : Option Buffer
  pub code : ℕ
  pub reader : Reader

unfoldable pub filled_buffer : Filled → Reader → ReadOut
filled_buffer f r =
    let index = add64 r.recv_buffer_index 1 in
    if is_empty f.data_read then record { buffer = none; code = f.code; reader = r } else record {
      buffer = some (record { sequence_num = index; left = f.data_read });
      code = f.code;
      reader = record { recv_buffer_index = index; link = add_posted r.link };
    }

-- RecvData into a buffer of CX_BUF_SIZE bytes; 4 is a connection that is closing, 2 also no buffer.
unfoldable pub recv_data : Bool → List Input → Reader → Option ReadOut
recv_data has_buffer script r =
    if is_ending r.link.state
    then some (record { buffer = none; code = 4; reader = r })
    else if not has_buffer
    then some (record { buffer = none; code = 2; reader = r })
    else elim (recv_bytes script 4096 []) [ none ↦ none | some f ↦ some (filled_buffer f r) ]

-- SendData: how many bytes were written, and nRet; EAGAIN is tried again. none is a call of `send` that
-- has not answered.
unfoldable pub send_data : List Answer → ℕ → List ℕ → Option (ℕ × ℕ)
send_data script written [] = some (written, 0)
send_data [] written (b ∷ bs) = none
send_data (Answer.wrote n ∷ script) written (b ∷ bs) =
    let took = take (suc n) (b ∷ bs) in
    send_data script (length took + written) (drop (suc n) (b ∷ bs))
send_data (Answer.again ∷ script) written (b ∷ bs) = send_data script written (b ∷ bs)
send_data (Answer.interrupted ∷ script) written (b ∷ bs) = send_data script written (b ∷ bs)
send_data (Answer.reset ∷ script) written (b ∷ bs) = some (written, 2)
send_data (Answer.other_error ∷ script) written (b ∷ bs) = some (written, 2)
send_data (Answer.peer_closed ∷ script) written (b ∷ bs) = some (written, 3)

-- AddReceivedPacketNumber, ReduceReceivedPacketNumber, ReduceNumberOfPostedRecvBuffers and
-- ReduceNumberOfPostedSentBuffers.
unfoldable pub add_received_packet_number : Link → Link
add_received_packet_number l = record l {
  number_of_received_packet_in_queue = add64 l.number_of_received_packet_in_queue 1;
}

unfoldable pub reduce_received_packet_number : Link → Link
reduce_received_packet_number l = record l {
  number_of_received_packet_in_queue = sub64 l.number_of_received_packet_in_queue 1;
}

unfoldable pub reduce_number_of_posted_recv_buffers : Link → Link
reduce_number_of_posted_recv_buffers l = record l {
  posted_recv_buffers = sub64 l.posted_recv_buffers 1;
}

unfoldable pub reduce_number_of_posted_sent_buffers : Link → Link
reduce_number_of_posted_sent_buffers l = record l {
  posted_sent_buffers = sub64 l.posted_sent_buffers 1;
}
