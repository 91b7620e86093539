-- ===== src/Packet/Tests.antt =====
-- Packets at concrete states: the theorems at inputs that meet their hypotheses.
use konsan_net.Prelude.{
  ℕ, ◌≡◌, ◌≢◌, refl, sym, ap, inl, inr, true, false, Option, none, some, List, [], ◌∷◌, ◌++◌, arith,
  take, drop,
}
use konsan_net.Coding.Parser.{prepare_data, parse_data}
use konsan_net.Coding.Tests.{ciphers, keys, undoes}
use konsan_net.Packet.Header.{
  Header, Fits, encode_header, decode_header, decode_header-encode_header,
}
use konsan_net.Packet.Receiver.{
  parse_output_len, parse_cache_len, Receiver, RecvResult, Surroundings, recv_loop,
}
use konsan_net.Packet.Stream.{Cut, cut}
use konsan_net.Packet.Stream.Loop.{Ready, Refines, ready_bytes, unpack_ready, recv_loop-Refines}
use konsan_net.Packet.Stream.Ends.{recv_loop_ends}
use konsan_net.Packet.Sender.{Sender, Facilities, Request, Sending, send_packet, sent_body}
use konsan_net.Packet.Sender.Sent.{Opens, AllOpen, messages, last_number}
use konsan_net.Packet.Sender.Coded.{output_of, parse_data_encrypted}
use konsan_net.Packet.Sender.Delivered.{Parses, Undone, Took, send_packet-Opens, recv_loop-Took}

-- A coder that puts the two types before the data.
abbrev prepend : ℕ → ℕ → List ℕ → ℕ → ℕ → Option (List ℕ)
prepend e c body dest cache = some (e ∷ c ∷ body)

abbrev strip : ℕ → ℕ → List ℕ → ℕ → ℕ → Option (List ℕ)
strip e c body dest cache = some (drop 2 body)

abbrev facilities : Facilities
facilities = record {
  has_server = true;
  has_buffer = true;
  has_cache = true;
  has_parser = true;
  async_prepare_data = false;
  has_task = false;
  prepare_data = prepend;
}

abbrev surroundings : Surroundings
surroundings = record {
  has_server = true;
  has_parser = true;
  async_parse_data = false;
  has_task = false;
  has_memory = true;
  parse_data = strip;
}

peers : Parses surroundings
peers = record { memory = refl; server = refl; parser = refl; at_once = refl }

peers-Undone : (e c : ℕ) (body : List ℕ) → Undone facilities surroundings e c body
unfolding Undone
peers-Undone e c body prepared run =
    let same : e ∷ c ∷ body ≡ prepared = cc in ap (λ bs. strip e c bs 0 0) (sym same)

abbrev plain_sender : Sender
plain_sender = record {
  send_buffer_index = 4;
  cur_sending_packet_sequence_num = 1;
  encrypt_type = 0;
  compress_type = 0;
  object_id = 10 ∷ 11 ∷ [];
  request_id = 12 ∷ 13 ∷ [];
  asynchronously_mes = false;
}

abbrev coded_sender : Sender
coded_sender = record plain_sender { encrypt_type = 131 }

abbrev posted_bytes : Sending → List ℕ
posted_bytes (Sending.posted n bytes) = bytes
posted_bytes (Sending.prepare_task n body) = []
posted_bytes Sending.refused = []

abbrev plain_packet : List ℕ
plain_packet = posted_bytes (send_packet facilities 7 none (1 ∷ 2 ∷ 3 ∷ []) plain_sender).1

abbrev coded_packet : List ℕ
coded_packet = posted_bytes (send_packet facilities 8 none (9 ∷ []) coded_sender).1

plain_packet-Opens :
    Opens surroundings plain_packet (sent_body plain_sender 7 none (1 ∷ 2 ∷ 3 ∷ []))
unfolding send_packet konsan_net.Packet.Sender.send_buffer
    konsan_net.Packet.Sender.send_assembled_packet encode_header konsan_net.Packet.Header.put_word
    konsan_net.Packet.Header.put_dword sent_body konsan_net.Packet.Sender.packet_body
plain_packet-Opens =
    send_packet-Opens facilities surroundings 7 none (1 ∷ 2 ∷ 3 ∷ []) plain_packet 1 plain_sender
      (send_packet facilities 7 none (1 ∷ 2 ∷ 3 ∷ []) plain_sender).0 peers
      (peers-Undone 0 0 (sent_body plain_sender 7 none (1 ∷ 2 ∷ 3 ∷ []))) refl (omega arith)
      (omega arith) (omega arith) (omega arith)

send_packet-Opens_example : Opens surroundings coded_packet (sent_body coded_sender 8 none (9 ∷ []))
unfolding send_packet konsan_net.Packet.Sender.send_buffer
    konsan_net.Packet.Sender.prepared_and_send_packet konsan_net.Packet.Sender.send_assembled_packet
    encode_header konsan_net.Packet.Header.put_word konsan_net.Packet.Header.put_dword sent_body
    konsan_net.Packet.Sender.packet_body
send_packet-Opens_example =
    send_packet-Opens facilities surroundings 8 none (9 ∷ []) coded_packet 1 coded_sender
      (send_packet facilities 8 none (9 ∷ []) coded_sender).0 peers
      (peers-Undone 131 0 (sent_body coded_sender 8 none (9 ∷ []))) refl (omega arith) (omega arith)
      (omega arith) (omega arith)

-- Four buffers: an empty one, the start of the first packet, its end with the second packet's start, and
-- the rest with five bytes of a third packet.
abbrev all_bytes : List ℕ
all_bytes = plain_packet ++ (coded_packet ++ take 5 plain_packet)

abbrev four_buffers : Receiver
four_buffers = record {
  read_buffers =
      (record { sequence_num = 1; left = [] })
      ∷ (record { sequence_num = 2; left = take 10 all_bytes })
      ∷ (record { sequence_num = 3; left = take 30 (drop 10 all_bytes) })
      ∷ (record { sequence_num = 4; left = drop 40 all_bytes })
      ∷ [];
  last_process_buffer_index = 0;
  number_of_received_buffer_in_list = 4;
  posted_recv_buffers = 0;
  last_unpacked_message_sequence_num = 0;
  encrypt_type = 0;
  compress_type = 0;
}

four_buffers-Ready : Ready four_buffers
four_buffers-Ready = record { index = omega arith; counted = refl; few = omega arith }

abbrev two_bodies : List (List ℕ)
two_bodies =
    sent_body plain_sender 7 none (1 ∷ 2 ∷ 3 ∷ []) ∷ sent_body coded_sender 8 none (9 ∷ []) ∷ []

recv_loop-Refines_example :
    Refines (recv_loop 3 surroundings four_buffers) (unpack_ready 3 surroundings four_buffers)
recv_loop-Refines_example = recv_loop-Refines 3 surroundings four_buffers four_buffers-Ready

recv_loop_ends_example : (recv_loop 100 surroundings four_buffers).result ≢ RecvResult.out_of_fuel
unfolding ready_bytes konsan_net.Packet.Stream.ready send_packet
    konsan_net.Packet.Sender.send_buffer konsan_net.Packet.Sender.send_assembled_packet
    encode_header konsan_net.Packet.Header.put_word konsan_net.Packet.Header.put_dword sent_body
    konsan_net.Packet.Sender.packet_body konsan_net.Packet.Sender.prepared_and_send_packet
recv_loop_ends_example =
    recv_loop_ends 100 surroundings four_buffers four_buffers-Ready (omega arith)

recv_loop-Took_example :
    Took (recv_loop 3 surroundings four_buffers) (messages 0 two_bodies) (take 5 plain_packet) 2
unfolding AllOpen cut send_packet konsan_net.Packet.Sender.send_buffer
    konsan_net.Packet.Sender.send_assembled_packet encode_header konsan_net.Packet.Header.put_word
    konsan_net.Packet.Header.put_dword konsan_net.Packet.Sender.Sent.stream ready_bytes
    konsan_net.Packet.Stream.ready sent_body konsan_net.Packet.Sender.prepared_and_send_packet
    konsan_net.Packet.Sender.packet_body last_number
recv_loop-Took_example =
    recv_loop-Took 3 surroundings four_buffers (plain_packet ∷ coded_packet ∷ []) two_bodies
      (take 5 plain_packet) four_buffers-Ready (plain_packet-Opens, (send_packet-Opens_example, tt))
      refl refl (omega arith)

-- The two sides with a CXFastDataParserHandle.
abbrev coding_facilities : Facilities
coding_facilities = record facilities {
  prepare_data = λ e t bs d n. output_of (prepare_data ciphers keys e t bs d n);
}

abbrev coding_surroundings : Surroundings
coding_surroundings = record surroundings {
  parse_data = λ e t bs d n. output_of (parse_data ciphers keys e t bs d n);
}

parse_data_encrypted_example :
    coding_surroundings.parse_data 129 0
      (7 ∷ 5 ∷ 7 ∷ 6 ∷ [])
      (parse_output_len 2)
      (parse_cache_len 2)
    ≡ some (5 ∷ 6 ∷ [])
unfolding output_of prepare_data konsan_net.Coding.Parser.parsed
    konsan_net.Coding.Parser.encrypt_data konsan_net.Packet.Sender.prepare_cache_len
    konsan_net.Coding.Parser.rsa_output konsan_net.Coding.Rsa.rsa_encrypt_data
    konsan_net.Coding.Rsa.encrypt_pieces
parse_data_encrypted_example =
    parse_data_encrypted ciphers keys keys undoes coding_facilities coding_surroundings 129
      (5 ∷ 6 ∷ []) (7 ∷ 5 ∷ 7 ∷ 6 ∷ []) (λ e bs d n. refl) (λ e bs d n. refl) (inl refl)
      (omega arith) (omega arith) (omega arith) (inr (omega arith)) refl
