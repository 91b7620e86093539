-- ===== src/Client/Packets/FromServer.antt =====
-- CXTcpClient.cpp, both RecvPacket, and CXConnectionObject.cpp, SendAssembledPacket: what a client reads.
use konsan_net.Prelude.{
  ℕ, ◌+◌, ◌^◌, ◌<◌, ◌≤◌, ◌≡◌, refl, ap, ◌∙◌, true, false, some, List, ◌++◌, length, take, drop, ltb,
  arith, sub32, length-append, take-append, drop-append, append_assoc,
}
use konsan_net.Packet.Header.{header_len, put_dword, get_dword}
use konsan_net.Packet.Sender.{Sender, packet_body}
use konsan_net.Packet.Sender.Sent.{Sendable, wire}
use konsan_net.Client.Tcp.{TcpClient, Socket}
use konsan_net.Client.Tcp.Transfers.{Alive}
use konsan_net.Client.Packets.{
  Outside, body_data_len, is_coded, overwrite, align_object, accept_body, message_bytes,
  copy_message, copy_received, is_positive, recv_packet_data,
}
use konsan_net.Client.Packets.Pieces.{get_dword-packet_body}
use konsan_net.Client.Packets.Reading.{
  read-packet, ReadsMessage, CanReceive, align_object-recv_buffer, restarted, restarted-CanReceive,
}

length-message :
    (object request : List ℕ) (code num : ℕ) (pb_data : List ℕ)
    → length object ≡ 16
    → length request ≡ 16
    → length (packet_body object request code num pb_data) ≡ body_data_len + length pb_data
unfolding packet_body put_dword
length-message object request code num pb_data object_size request_size =
    let a = length-append object request in
    let b = length-append (object ++ request) (put_dword code) in
    let d = length-append ((object ++ request) ++ put_dword code) (put_dword num) in
    let e = length-append (((object ++ request) ++ put_dword code) ++ put_dword num) pb_data in
    omega arith

-- The data of a message that was read.
module _ (object request : List ℕ) (code num : ℕ) (pb_data old : List ℕ)
    (object_size : length object ≡ 16) (request_size : length request ≡ 16)
    (size_bound : length pb_data < 2 ^ 31) (some_data : 0 < length pb_data) where
  abbrev message : List ℕ
  message = packet_body object request code num pb_data

  message_bytes-message :
      (c : TcpClient) → c.recv_buffer ≡ message ++ old → message_bytes (length pb_data) c ≡ pb_data
  unfolding message_bytes packet_body put_dword
  message_bytes-message c buffer =
      let front = ((object ++ request) ++ put_dword code) ++ put_dword num in
      let a = length-append object request in
      let b = length-append (object ++ request) (put_dword code) in
      let d = length-append ((object ++ request) ++ put_dword code) (put_dword num) in
      ap (λ bs. take (length pb_data) (drop body_data_len bs))
        (buffer ∙ append_assoc front pb_data old)
      ∙ ap (λ bs. take (length pb_data) bs)
          (drop-append body_data_len front (pb_data ++ old) (omega arith))
      ∙ take-append (length pb_data) pb_data old refl

  copied-message :
      (size : ℕ) (c : TcpClient) (k : Socket)
      → c.recv_buffer ≡ message ++ old
      → length pb_data ≤ size
      → copy_received size (accept_body (length message) c k)
        ≡ record { copied = pb_data; received = accept_body (length message) c k }
  unfolding accept_body copy_received copy_message is_positive
  copied-message size c k buffer fits =
      let n = length-message object request code num pb_data object_size request_size in
      let read : sub32 (length message) body_data_len ≡ length pb_data = omega arith in
      let some_read : is_positive (length pb_data) ≡ true = ground arith in
      let all : ltb size (length pb_data) ≡ false = ground arith in
      let got : message_bytes (length pb_data) (align_object c) ≡ pb_data =
        message_bytes-message (align_object c) (align_object-recv_buffer c ∙ buffer) in
      rw (read, some_read, all, got) refl

-- RecvPacket into at least as many bytes as the data has, of a packet that the server's SendAssembledPacket
-- made of two guids, a code, a number and data and did not code, over a socket that moves bytes in pieces of
-- any size, returns 0 with the data and the code, and leaves all that came behind the packet, where the
-- client is connected, has receive buffers of its own, and memory is to be had.
pub recv_packet_data-ReadsMessage :
    (o : Outside) (s : Sender) (object request pb_data later : List ℕ) (code num size : ℕ)
    (c : TcpClient) (k : Socket)
    → CanReceive o c
    → Sendable s
        (packet_body object request code num pb_data)
        (length (packet_body object request code num pb_data))
    → is_coded s.encrypt_type s.compress_type ≡ false
    → length object ≡ 16
    → length request ≡ 16
    → code < 2 ^ 32
    → 0 < length pb_data
    → length pb_data ≤ size
    → k.incoming
      ≡ wire s
          (packet_body object request code num pb_data)
          (length (packet_body object request code num pb_data))
        ++ later
    → Alive k.calls
    → length (packet_body object request code num pb_data) + header_len ≤ length k.calls
    → ReadsMessage code pb_data later (recv_packet_data o size c k)
unfolding accept_body overwrite recv_packet_data packet_body get_dword align_object
recv_packet_data-ReadsMessage o s object request pb_data later code num size c k can ok plain a b
      small some_data fits arrived alive enough =
    let body = packet_body object request code num pb_data in
    let n = length-message object request code num pb_data a b in
    let bound = ok.size in
    let (len, old, rest, run) =
      read-packet o s body later (length body) (restarted c) (restarted-CanReceive o c can) ok
        (omega arith) plain k arrived alive enough in
    let final : TcpClient = record (restarted c) {
      recv_buffer_len = len;
      recv_buffer = overwrite body old;
    } in
    let left : Socket = record { calls = rest; incoming = later; outgoing = k.outgoing } in
    record {
      end = record { copied = pb_data; received = accept_body (length body) final left };
      run =
          rw (run, recv_packet_data)
            (ap some (
              copied-message object request code num pb_data (drop (length body) old) a b
                (omega arith) some_data size final left refl fits));
      result = refl;
      copied = refl;
      mes_code =
          get_dword-packet_body object request code num pb_data (drop (length body) old) a b small;
      incoming = refl;
    }
