-- ===== src/Packet/Sending.antt =====
-- CXCommunicationServer/src/CXConnectionObject.cpp: SendDataList and PostSend, without WIN32. A buffer that
-- waits to be sent is its number and the bytes from nCurDataPointer on; PushSendBuffer puts it into the
-- list as PushReceivedBuffer does. The answers of `send` are a script, one for each call.
-- CXConnectionObject::Close and CXCommunicationServer::CloseConnection are in Packet/Closing.
pub mod Conserved
use konsan_net.Prelude.{
  ℕ, zero, suc, ◌-◌, Bool, true, false, not, ◌||◌, Option, none, some, List, [], ◌∷◌, ◌++◌, length,
  take, drop, is_empty, ltb, leb, ◌==◌, if◌then◌else◌, add64,
}
use konsan_net.Packet.Receiver.{Buffer, push_buffer}
use konsan_net.Packet.Closing.{
  Link, State, ClosedType, is_closing, is_established, is_ending, close_connection,
}

-- A positive number of bytes that were taken (`wrote n` for n + 1), or -1 with EAGAIN, ECONNRESET, EINTR
-- or another error, or 0.
pub data Answer : Type 0 where
  wrote : ℕ → Answer
  again : Answer
  reset : Answer
  interrupted : Answer
  other_error : Answer
  peer_closed : Answer

-- The end of the inner loop: all of the buffer was taken, or some bytes are left, or an error.
pub data Attempt : Type 0 where
  finished : List ℕ → List Answer → Attempt
  put_off : List ℕ → List ℕ → List Answer → Attempt
  broken : ℕ → ClosedType → List ℕ → List Answer → Attempt
  calling : List ℕ → Attempt

-- `written` are the bytes of this buffer that were taken so far. A call takes no more bytes than there are.
unfoldable pub send_bytes : List Answer → List ℕ → List ℕ → Attempt
send_bytes script written [] = Attempt.finished written script
send_bytes [] written (b ∷ bs) = Attempt.calling written
send_bytes (Answer.wrote n ∷ script) written (b ∷ bs) =
    send_bytes script (written ++ take (suc n) (b ∷ bs)) (drop (suc n) (b ∷ bs))
send_bytes (Answer.again ∷ script) written (b ∷ bs) = Attempt.put_off written (b ∷ bs) script
send_bytes (Answer.reset ∷ script) written (b ∷ bs) =
    Attempt.broken 2 ClosedType.socket_peer_closed written script
send_bytes (Answer.interrupted ∷ script) written (b ∷ bs) = send_bytes script written (b ∷ bs)
send_bytes (Answer.other_error ∷ script) written (b ∷ bs) =
    Attempt.broken 2 ClosedType.socket_other_error written script
send_bytes (Answer.peer_closed ∷ script) written (b ∷ bs) =
    Attempt.broken 3 ClosedType.socket_peer_closed written script

-- The list, the counter, the connection, the bytes that the socket took, and whether epoll was asked to
-- tell when the socket can be written.
pub record Outbox : Type 0 where
  pub send_buffers : List Buffer
  pub last_sent_packet_sequence_num : ℕ
  pub link : Link
  pub wire : List ℕ
  pub waits_writing : Bool

-- The result of SendDataList: its code without the sign, or a call of `send` that has not answered.
pub data Outcome : Type 0 where
  result : ℕ → Outbox → Outcome
  in_call : Outbox → Outcome

-- The close after a buffer, on an error now or earlier in this call, or on a connection that is closing.
unfoldable pub close_after : Option ClosedType → Link → Link
close_after (some t) l = close_connection t l
close_after none l = if is_closing l.state then close_connection ClosedType.socket_closed l else l

unfoldable pub next_buffer : List ℕ → Option ClosedType → List Buffer → Outbox → Outbox
next_buffer written need_close rest s = record s {
  send_buffers = rest;
  last_sent_packet_sequence_num = add64 s.last_sent_packet_sequence_num 1;
  link = close_after need_close s.link;
  wire = s.wire ++ written;
}

unfoldable pub put_off_buffer : Bool → List ℕ → List ℕ → Buffer → List Buffer → Outbox → Outcome
put_off_buffer watched written left b rest s =
    let kept = record s {
      send_buffers = record b { left = left } ∷ rest;
      wire = s.wire ++ written;
    } in
    if watched
    then Outcome.result 0 (record kept { waits_writing = true })
    else Outcome.result 4 kept

-- The loop on the list: `code` and `need_close` are nRet and bNeedClose with its type, which nothing
-- resets. `watched` says whether SetWaitWritingEvent succeeds.
unfoldable pub send_loop :
    Bool → List Answer → ℕ → Option ClosedType → List Buffer → Outbox → Outcome
send_loop watched script code need_close [] s = Outcome.result code s
send_loop watched script code need_close (b ∷ rest) s =
    let next = λ (c : ℕ) (t : Option ClosedType) (w : List ℕ) (left : List Answer).
      send_loop watched left c t rest (next_buffer w t rest s) in
    if b.sequence_num == add64 s.last_sent_packet_sequence_num 1
    then elim (send_bytes script [] b.left) [
      | Attempt.finished written left ↦ next code need_close written left
      | Attempt.put_off written bytes left ↦ put_off_buffer watched written bytes b rest s
      | Attempt.broken c t written left ↦ next c (some t) written left
      | Attempt.calling written ↦ Outcome.in_call (record s { wire = s.wire ++ written })
    ]
    else Outcome.result code s

unfoldable pub send_data_list : Bool → List Answer → Outbox → Outcome
send_data_list watched script s = send_loop watched script 0 none s.send_buffers s

-- PostSend of a buffer that is not NULL; 1 is INVALID_PARAMETER, 4 a connection that is closing or closed.
unfoldable pub post_send : Bool → Bool → List Answer → Buffer → Outbox → Outcome
post_send has_kernel watched script b s =
    let pushed = record s { send_buffers = push_buffer b s.send_buffers } in
    if not has_kernel || is_empty b.left || ltb 1048576 (length b.left)
    then Outcome.result 1 s
    else if is_ending s.link.state
    then Outcome.result 4 s
    else if not (is_established s.link.state)
    then Outcome.result 0 pushed
    else send_data_list watched script pushed
