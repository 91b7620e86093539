-- ===== src/Client/Tests.antt =====
-- A client at concrete states.
use konsan_net.Prelude.{
  ◌≡◌, ◌++◌, refl, true, false, none, List, [], ◌∷◌, arith, ℕ, zero, suc, replicate,
}
use konsan_net.Packet.Header.{put_dword}
use konsan_net.Packet.Receiver.{Surroundings}
use konsan_net.Packet.Sender.{Sender, packet_body}
use konsan_net.Packet.Sender.Sent.{wire}
use konsan_net.Client.Tcp.{TcpClient, Socket, SocketCall}
use konsan_net.Client.Tcp.Transfers.{Alive}
use konsan_net.Client.Packets.{Outside, send_packet, recv_packet_data, parse_body, is_coded}
use konsan_net.Client.Packets.ToServer.{Delivers, sent_body, send_packet-Delivers}
use konsan_net.Client.Packets.FromServer.{recv_packet_data-ReadsMessage}
use konsan_net.Client.Packets.Reading.{ReadsMessage}
use konsan_net.Client.Packets.Faults.{send_packet-stale}
use konsan_net.Client.Channel.Accepted.{arrived, login_message-Readable}
use konsan_net.Server.Login.{connection_type}
use konsan_net.Server.Login.Main.{Readable}

abbrev zeros : List ℕ
zeros = replicate 16 0

-- A connected client with the buffers that Create makes.
abbrev ready_client : TcpClient
ready_client = record {
  created = true;
  connected = true;
  packet_number = 0;
  send_buffer_len = 4152;
  real_send_buffer = 0;
  allocated = 1;
  recv_buffer_len = 4136;
  recv_buffer = [];
  encrypt_type = 0;
  compress_type = 0;
  left_data_begin_pos = 0;
  left_recv_data_len = 0;
  rpc_object_guid = zeros;
  request_id = zeros;
  used_memory_cache_pool = false;
  get_real_object_id = false;
}

-- Without a coder.
abbrev plain_outside : Outside
plain_outside = record {
  has_parser = false;
  has_memory = true;
  new_guid = zeros;
  prepare_data = λ e t bs d n. none;
  parse_data = λ e t bs d n. none;
}

abbrev plain_server : Surroundings
plain_server = record {
  has_server = true;
  has_parser = true;
  async_parse_data = false;
  has_task = false;
  has_memory = true;
  parse_data = λ e t bs d n. none;
}

-- Calls that move one, two or many bytes.
abbrev live : ℕ → List SocketCall
live zero = []
live (suc n) = SocketCall.moves 0 ∷ SocketCall.moves 1 ∷ SocketCall.moves 9 ∷ live n

live-Alive : (n : ℕ) → Alive (live n)
unfolding Alive
live-Alive zero = tt
live-Alive (suc n) = live-Alive n

abbrev wires : List ℕ → Socket
wires bytes = record { calls = live 30; incoming = bytes; outgoing = [] }

send_packet-Delivers_example :
    Delivers plain_server
      (sent_body plain_outside 7 (5 ∷ 6 ∷ []) ready_client)
      (wires [])
      (send_packet plain_outside false 7 (5 ∷ 6 ∷ []) ready_client (wires []))
unfolding konsan_net.Client.Tcp.is_usable konsan_net.Client.Packets.has_room is_coded
    konsan_net.Client.Packets.prepared_body konsan_net.Client.Packets.next_packet
    konsan_net.Client.Packets.client_body packet_body put_dword
send_packet-Delivers_example =
    send_packet-Delivers plain_outside plain_server 7 (5 ∷ 6 ∷ [])
      (sent_body plain_outside 7 (5 ∷ 6 ∷ []) ready_client) ready_client (wires [])
      (record { memory = refl; server = refl; parser = refl; at_once = refl })
      (record { usable = refl; room = refl; encrypt = omega arith; compress = omega arith })
      (record { parser = refl; prepares = refl; undone = λ e. absurd (cc) }) (omega arith)
      (omega arith) (omega arith) (live-Alive 30) (omega arith)

send_packet-stale_example :
    send_packet plain_outside false 7 (replicate 4097 1) ready_client (wires []) ≡ none
unfolding is_coded konsan_net.Client.Packets.has_room
send_packet-stale_example =
    send_packet-stale plain_outside 7 (replicate 4097 1) ready_client (wires []) (omega arith) refl
      refl (omega arith) refl

abbrev server_side : Sender
server_side = record {
  send_buffer_index = 0;
  cur_sending_packet_sequence_num = 0;
  encrypt_type = 0;
  compress_type = 0;
  object_id = zeros;
  request_id = zeros;
  asynchronously_mes = false;
}

abbrev reply_body : List ℕ
reply_body = packet_body zeros zeros 8 3 (9 ∷ 8 ∷ 7 ∷ [])

recv_packet_data-ReadsMessage_example : ReadsMessage 8 (9 ∷ 8 ∷ 7 ∷ []) (1 ∷ []) (
    recv_packet_data plain_outside 100 ready_client
      (wires (wire server_side reply_body 43 ++ 1 ∷ [])))
unfolding konsan_net.Client.Tcp.is_usable packet_body put_dword is_coded
recv_packet_data-ReadsMessage_example =
    recv_packet_data-ReadsMessage plain_outside server_side zeros zeros (9 ∷ 8 ∷ 7 ∷ []) (1 ∷ []) 8
      3 100 ready_client (wires (wire server_side reply_body 43 ++ 1 ∷ []))
      (record { usable = refl; memory = refl; own = refl })
      (record {
        compress = omega arith;
        encrypt = omega arith;
        size = omega arith;
        orign = omega arith;
      })
      refl refl refl (omega arith) (omega arith) (omega arith) refl (live-Alive 30) (omega arith)

login_message-Readable_example :
    Readable (arrived 1 1 1 (b'a' ∷ []) (b'b' ∷ []) (replicate 40 0)) (b'a' ∷ []) (b'b' ∷ [])
    × (connection_type (arrived 1 1 1 (b'a' ∷ []) (b'b' ∷ []) (replicate 40 0)) ≡ 1)
login_message-Readable_example =
    login_message-Readable 1 1 1 (b'a' ∷ []) (b'b' ∷ []) (replicate 40 0) (refl, tt) (refl, tt)
      (refl, tt) (omega arith) refl
