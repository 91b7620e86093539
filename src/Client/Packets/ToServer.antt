-- ===== src/Client/Packets/ToServer.antt =====
-- CXTcpClient.cpp, SendPacket, and CXConnectionObject.cpp, RecvPacket: what a client sends.
use konsan_net.Prelude.{
  ℕ, ◌+◌, ◌^◌, ◌<◌, ◌≤◌, ◌≡◌, refl, subst, true, false, not, ◌&&◌, Option, some, List, [], ◌++◌,
  length, is_empty, ltb, ◌==◌, ==_refl, arith, add32, Bool-cases, inl, inr, length-append,
}
use konsan_net.Packet.Header.{
  put_dword, header_len, max_chache_size, encode_header, length-encode_header,
}
use konsan_net.Packet.Receiver.{Surroundings, parse_cache_len, parse_output_len}
use konsan_net.Packet.Sender.{Sender, assembled_header}
use konsan_net.Packet.Sender.Sent.{Sendable, wire, Opens}
use konsan_net.Packet.Sender.Delivered.{Parses, plain-Opens, coded-Opens}
use konsan_net.Client.Tcp.{TcpClient, Socket, SocketCall, send, is_usable, is_whole}
use konsan_net.Client.Tcp.Transfers.{Alive, send_loop-SentAll}
use konsan_net.Client.Packets.{
  Outside, PacketResult, Sent, packet_data_len, is_coded, has_room, set_send_buffer_size,
  packet_header, send_assembled, prepared_body, client_body, next_packet, send_in_buffers,
  sized_buffers, send_packet,
}

-- The server's sender that makes the same header.
abbrev as_sender : TcpClient → Sender
as_sender c = record {
  send_buffer_index = 0;
  cur_sending_packet_sequence_num = 0;
  encrypt_type = c.encrypt_type;
  compress_type = c.compress_type;
  object_id = [];
  request_id = [];
  asynchronously_mes = false;
}

-- The client that sends: connected, with buffers for the data, and types that fit a byte.
pub record CanSend (n : ℕ) (c : TcpClient) : Type 0 where
  pub usable : is_usable c ≡ true
  pub room : has_room (add32 n packet_data_len) c.send_buffer_len ≡ true
  pub encrypt : c.encrypt_type < 256
  pub compress : c.compress_type < 256

wire_not_empty : (s : Sender) (body : List ℕ) (orign : ℕ) → is_empty (wire s body orign) ≡ false
unfolding encode_header konsan_net.Packet.Header.put_word
wire_not_empty s body orign = refl

-- SendPacket returned 0, and the bytes that it added are a packet that RecvPacket takes as `body`.
pub record Delivers (ss : Surroundings) (body : List ℕ) (s : Socket) (r : Option Sent)
    : Type 0 where
  pub packet : List ℕ
  pub sent : Sent
  pub run : r ≡ some sent
  pub result : sent.result ≡ PacketResult.return_succeed
  pub outgoing : sent.socket.outgoing ≡ s.outgoing ++ packet
  pub opens : Opens ss packet body

-- All of some bytes are sent.
pub send-run :
    (bytes : List ℕ) (c : TcpClient) (s : Socket)
    → is_empty bytes ≡ false
    → is_usable c ≡ true
    → Alive s.calls
    → length bytes ≤ length s.calls
    → (rest : List SocketCall) × (send bytes c s
        ≡ some (record {
          complete = true;
          bytes = bytes;
          client = c;
          socket = record { calls = rest; incoming = s.incoming; outgoing = s.outgoing ++ bytes };
        }))
unfolding is_whole send
send-run bytes c s some_bytes usable alive enough =
    let all = send_loop-SentAll s.calls s.incoming s.outgoing [] bytes alive (omega arith) in
    (all.rest, rw (some_bytes, usable, all.run, send) refl)

-- All of a packet is sent.
send_assembled-run :
    (body : List ℕ) (orign : ℕ) (c : TcpClient) (s : Socket)
    → is_usable c ≡ true
    → Alive s.calls
    → length body + header_len ≤ length s.calls
    → (t : Sent) × (send_assembled body orign c s ≡ some t)
      × (t.result ≡ PacketResult.return_succeed)
      × (t.socket.outgoing ≡ s.outgoing ++ wire (as_sender c) body orign)
unfolding packet_header assembled_header send_assembled encode_header
    konsan_net.Packet.Header.sum_bytes
send_assembled-run body orign c s usable alive enough =
    let p = wire (as_sender c) body orign in
    let size = length-append (encode_header (assembled_header (as_sender c) body orign)) body in
    let head = length-encode_header (assembled_header (as_sender c) body orign) in
    let (rest, run) =
      send-run p c s (wire_not_empty (as_sender c) body orign) usable alive (omega arith) in
    (
      record {
        result = PacketResult.return_succeed;
        client = c;
        socket = record { calls = rest; incoming = s.incoming; outgoing = s.outgoing ++ p };
      },
      rw (run, send_assembled) refl,
      refl,
      refl,
    )

-- The client and the body as SendPacket sees them after the request got its guid and the packet its number.
abbrev pub numbered_client : Outside → TcpClient → TcpClient
numbered_client o c = record c { request_id = o.new_guid; packet_number = add32 c.packet_number 1 }

-- The object's guid, the request's, the code, the number, and the data.
abbrev pub sent_body : Outside → ℕ → List ℕ → TcpClient → List ℕ
sent_body o code pb_data c =
    c.rpc_object_guid
    ++ o.new_guid
    ++ put_dword code
    ++ put_dword (add32 c.packet_number 1)
    ++ pb_data

-- PrepareData, where it is asked for, makes `prepared`, which the server's ParseData turns back.
pub record Codes (o : Outside) (ss : Surroundings) (c : TcpClient) (body prepared : List ℕ)
    : Type 0 where
  pub parser : (is_coded c.encrypt_type c.compress_type && not o.has_parser) ≡ false
  pub prepares : prepared_body o body (numbered_client o c) ≡ some prepared
  pub undone :
      is_coded c.encrypt_type c.compress_type ≡ true
      → ss.parse_data c.encrypt_type c.compress_type prepared
          (parse_output_len (length body))
          (parse_cache_len (length body))
        ≡ some body

-- Data without a type is sent as it is.
plain-prepared :
    (o : Outside) (c : TcpClient) (body prepared : List ℕ)
    → (c.encrypt_type == 0 && c.compress_type == 0) ≡ true
    → prepared_body o body c ≡ some prepared
    → body ≡ prepared
unfolding is_coded prepared_body
plain-prepared o c body prepared plain made =
    let plain_made : prepared_body o body c ≡ some body =
      rw (plain, is_coded, prepared_body) refl in
    cc

-- Whether coded or not, the packet opens.
packet-Opens :
    (o : Outside) (ss : Surroundings) (c : TcpClient) (body prepared : List ℕ)
    → Parses ss
    → Codes o ss c body prepared
    → Sendable (as_sender c) prepared (length body)
    → Opens ss (wire (as_sender c) prepared (length body)) body
unfolding next_packet is_coded
packet-Opens o ss c body prepared peers codes ok =
    elim (Bool-cases (c.encrypt_type == 0 && c.compress_type == 0)) [
      | inl plain ↦
          let same = plain-prepared o (numbered_client o c) body prepared plain codes.prepares in
          subst
            (λ p.
              Sendable (as_sender c) p (length body)
              → Opens ss (wire (as_sender c) p (length body)) body)
            same (plain-Opens ss peers (as_sender c) body plain) ok
      | inr coded ↦
          coded-Opens ss peers (as_sender c) body prepared
            (codes.undone (rw (coded, is_coded) refl)) coded ok
    ]

-- SendPacket of a connected client, with data for which its buffers have room, over a socket that moves
-- bytes, returns 0, and the bytes that it puts on the wire are a packet that the server's RecvPacket takes
-- as the message with the client's guids, the code, the number after the last one and the data; where the
-- data is coded, if the server's ParseData undoes what PrepareData made. The body has at most 1 MB.
pub send_packet-Delivers :
    (o : Outside) (ss : Surroundings) (code : ℕ) (pb_data prepared : List ℕ) (c : TcpClient)
    (s : Socket)
    → Parses ss
    → CanSend (length pb_data) c
    → Codes o ss c (sent_body o code pb_data c) prepared
    → length pb_data ≤ 2 ^ 30
    → length (sent_body o code pb_data c) < 2 ^ 32
    → length prepared ≤ max_chache_size
    → Alive s.calls
    → length prepared + header_len ≤ length s.calls
    → Delivers ss (sent_body o code pb_data c) s (send_packet o false code pb_data c s)
unfolding konsan_net.Packet.Sender.packet_body next_packet is_usable sized_buffers send_packet
    send_assembled-run set_send_buffer_size send-run konsan_net.Packet.Header.put_word
    send_in_buffers konsan_net.Packet.Header.put_dword client_body
send_packet-Delivers o ss code pb_data prepared c s peers can codes small orign size alive enough =
    let n = numbered_client o c in
    let body = sent_body o code pb_data c in
    let short : ltb (2 ^ 30) (length pb_data) ≡ false = ground arith in
    let (t, run, ok, out) = send_assembled-run prepared (length body) n s can.usable alive enough in
    record {
      packet = wire (as_sender c) prepared (length body);
      sent = t;
      run =
          rw
            (
              short,
              codes.parser,
              can.room,
              ==_refl c.real_send_buffer,
              codes.prepares,
              sized_buffers,
              set_send_buffer_size,
              send_in_buffers,
              send_packet,
            )
            run;
      result = ok;
      outgoing = out;
      opens =
          packet-Opens o ss c body prepared peers codes
            (record { compress = can.compress; encrypt = can.encrypt; size = size; orign = orign });
    }
