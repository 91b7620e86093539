-- ===== src/Client/Packets/Reading.antt =====
-- CXTcpClient.cpp, RecvPacket: the header and the body of a packet are read.
use konsan_net.Prelude.{
  ℕ, ◌+◌, ◌^◌, ◌<◌, ◌≤◌, ◌≡◌, refl, sym, ap, ◌∙◌, true, false, Option, some, List, [], ◌++◌, length,
  take, drop, ltb, arith, add32, Bool-cases, inl, inr, length-append, take-append, drop-append,
  append_assoc, append-nil,
}
use konsan_net.Packet.Header.{
  Header, header_len, get_dword, encode_header, decode_header, length-encode_header,
  decode_header-encode_header,
}
use konsan_net.Packet.Sender.{Sender, assembled_header}
use konsan_net.Packet.Sender.Sent.{Sendable, wire, assembled_header-Fits}
use konsan_net.Client.Tcp.{TcpClient, Socket, SocketCall, is_usable}
use konsan_net.Client.Tcp.Transfers.{Alive}
use konsan_net.Client.Packets.{
  Outside, PacketResult, Resized, body_data_len, is_coded, overwrite, set_recv_buffer_size,
  has_room, grow_recv_buffers, resized, align_object, accept_body, parse_body, recv_body,
  check_header, recv_packet, Copied,
}
use konsan_net.Client.Packets.Pieces.{recv-run}

-- A buffer is there, or a new one that this client may allocate.
sized-recv :
    (o : Outside) (n : ℕ) (c : TcpClient)
    → o.has_memory ≡ true
    → c.used_memory_cache_pool ≡ false
    → (len : ℕ) × (old : List ℕ) × (set_recv_buffer_size o.has_memory n c
        ≡ Resized.sized (record c { recv_buffer_len = len; recv_buffer = old }))
unfolding set_recv_buffer_size grow_recv_buffers resized
sized-recv o n c memory own =
    elim (Bool-cases (has_room (add32 n body_data_len) c.recv_buffer_len)) [
      | inl y ↦ (c.recv_buffer_len, c.recv_buffer, rw (y, set_recv_buffer_size) refl)
      | inr w ↦ (
        add32 n body_data_len,
        [],
        rw (w, memory, own, grow_recv_buffers, resized, set_recv_buffer_size) refl,
      )
    ]

-- RecvPacket returned 0 with this message, and left the bytes that came behind the packet.
pub record ReadsMessage (code : ℕ) (pb_data later : List ℕ) (r : Option Copied) : Type 0 where
  pub end : Copied
  pub run : r ≡ some end
  pub result : end.received.result ≡ PacketResult.return_succeed
  pub copied : end.copied ≡ pb_data
  pub mes_code : end.received.mes_code ≡ code
  pub incoming : end.received.socket.incoming ≡ later

-- A connected client whose memory is its own.
pub record CanReceive (o : Outside) (c : TcpClient) : Type 0 where
  pub usable : is_usable c ≡ true
  pub memory : o.has_memory ≡ true
  pub own : c.used_memory_cache_pool ≡ false

pub align_object-recv_buffer : (c : TcpClient) → (align_object c).recv_buffer ≡ c.recv_buffer
unfolding align_object
align_object-recv_buffer c = ground arith

-- The header is read, and then the body.
module _ (o : Outside) (s : Sender) (body later : List ℕ) (orign : ℕ) (c : TcpClient)
    (can : CanReceive o c) (ok : Sendable s body orign) (some_data : 0 < length body)
    (plain : is_coded s.encrypt_type s.compress_type ≡ false) where
  abbrev header : Header
  header = assembled_header s body orign

  read-body :
      (old : List ℕ) (len : ℕ) (k : Socket)
      → k.incoming ≡ body ++ later
      → Alive k.calls
      → length body ≤ length k.calls
      → (rest : List SocketCall) × (recv_body o header
            (record c { recv_buffer_len = len; recv_buffer = old })
            k
          ≡ some (
              accept_body
                (length body)
                (record c { recv_buffer_len = len; recv_buffer = overwrite body old })
                (record { calls = rest; incoming = later; outgoing = k.outgoing })))
  unfolding assembled_header is_usable recv_body accept_body parse_body get_dword align_object
  read-body old len k arrived alive enough =
      let n : TcpClient = record c { recv_buffer_len = len; recv_buffer = old } in
      let l = ap {A = List ℕ} (λ bs. length bs) arrived in
      let m = length-append body later in
      let all = recv-run (length body) n k some_data can.usable alive (omega arith) enough in
      let front : take (length body) k.incoming ≡ body =
        ap (λ bs. take (length body) bs) arrived ∙ take-append (length body) body later refl in
      let back : drop (length body) k.incoming ≡ later =
        ap (λ bs. drop (length body) bs) arrived ∙ drop-append (length body) body later refl in
      (all.rest, rw (all.run, recv_body) (rw (front, back, plain, parse_body) refl))

abbrev pub restarted : TcpClient → TcpClient
restarted c = record c { left_data_begin_pos = 0; left_recv_data_len = 0 }

pub restarted-CanReceive :
    (o : Outside) (c : TcpClient) → CanReceive o c → CanReceive o (restarted c)
unfolding is_usable
restarted-CanReceive o c can = record { usable = can.usable; memory = can.memory; own = can.own }

-- RecvPacket of such a packet into the client's buffer.
module _ (o : Outside) (s : Sender) (body later : List ℕ) (orign : ℕ) (c : TcpClient)
    (can : CanReceive o c) (ok : Sendable s body orign) (some_data : 0 < length body)
    (plain : is_coded s.encrypt_type s.compress_type ≡ false) where
  abbrev sent_header : Header
  sent_header = assembled_header s body orign

  checked :
      (old : List ℕ) (len : ℕ) (k : Socket)
      → set_recv_buffer_size o.has_memory (length body) (restarted c)
        ≡ Resized.sized (record (restarted c) { recv_buffer_len = len; recv_buffer = old })
      → check_header o sent_header (restarted c) k
        ≡ recv_body o sent_header
            (record (restarted c) { recv_buffer_len = len; recv_buffer = old })
            k
  unfolding assembled_header check_header recv_body
  checked old len k sized =
      let size = ok.size in
      let small : ltb (2 ^ 30) (length body) ≡ false = ground arith in
      rw (small, sized, check_header) refl

  pub read-packet :
      (k : Socket)
      → k.incoming ≡ wire s body orign ++ later
      → Alive k.calls
      → length body + header_len ≤ length k.calls
      → (len : ℕ) × (old : List ℕ) × (rest : List SocketCall) × (recv_packet o c k
          ≡ some (
              accept_body
                (length body)
                (record (restarted c) { recv_buffer_len = len; recv_buffer = overwrite body old })
                (record { calls = rest; incoming = later; outgoing = k.outgoing })))
  unfolding recv_packet accept_body
  read-packet k arrived alive enough =
      let head = encode_header sent_header in
      let size = length-encode_header sent_header in
      let whole : k.incoming ≡ head ++ (body ++ later) = arrived ∙ append_assoc head body later in
      let l = ap {A = List ℕ} (λ bs. length bs) whole in
      let m = length-append head (body ++ later) in
      let fresh_can = restarted-CanReceive o c can in
      let first =
        recv-run header_len (restarted c) k (omega arith) fresh_can.usable alive (omega arith)
          (omega arith) in
      let (len, old, sized) = sized-recv o (length body) (restarted c) can.memory can.own in
      let left = first.enough in
      let behind : Socket = record {
        calls = first.rest;
        incoming = drop header_len k.incoming;
        outgoing = k.outgoing;
      } in
      let after : behind.incoming ≡ body ++ later =
        ap (λ bs. drop header_len bs) whole ∙ drop-append header_len head (body ++ later) size in
      let front : decode_header (take header_len k.incoming) ≡ sent_header =
        ap (λ bs. decode_header (take header_len bs)) whole
        ∙ ap decode_header
            (take-append header_len head (body ++ later) size ∙ sym (append-nil head))
        ∙ decode_header-encode_header sent_header [] (assembled_header-Fits s body orign ok) in
      let (rest, run) =
        read-body o s body later orign (restarted c) fresh_can ok some_data plain old len behind
          after first.alive (omega arith) in
      (
        len,
        old,
        rest,
        rw (can.usable, first.run, recv_packet) (rw front (checked old len behind sized ∙ run)),
      )
