-- ===== src/Packet/RequestTests.antt =====
-- An object that asks another server, over a connection that is still to be created.
use konsan_net.Prelude.{ℕ, ◌≡◌, ◌++◌, refl, true, false, none, some, List, [], ◌∷◌, arith}
use konsan_net.Server.Session.{new_session}
use konsan_net.Packet.Header.{encode_header}
use konsan_net.Packet.Closing.{State, Link}
use konsan_net.Packet.Sender.{Sender, Facilities, packet_body, assembled_header}
use konsan_net.Packet.Sending.{Answer, Outbox}
use konsan_net.Packet.Requests.{
  RpcRequest, Proxy, ClientInServer, Network, attach, send_packet, send_packet_data,
}
use konsan_net.Packet.Requests.Sends.{Sends}
use konsan_net.Packet.Requests.Creation.{failed_creation-Sends}
use konsan_net.Packet.Requests.Dangling.{Dangling}

abbrev creating_link : Link
creating_link = record {
  state = State.creating;
  posted_sent_buffers = 0;
  posted_recv_buffers = 0;
  number_of_received_buffer_in_list = 0;
  number_of_received_packet_in_queue = 0;
  read_buffers = 0;
  session = some 1;
  detached = 0;
  sockets_closed = 0;
  removed = 0;
  sessions_closed = 0;
  released = 0;
}

abbrev new_proxy : Proxy
new_proxy = record {
  sender = record {
    send_buffer_index = 0;
    cur_sending_packet_sequence_num = 1;
    encrypt_type = 0;
    compress_type = 0;
    object_id = [];
    request_id = [];
    asynchronously_mes = true;
  };
  outbox = record {
    send_buffers = [];
    last_sent_packet_sequence_num = 0;
    link = creating_link;
    wire = [];
    waits_writing = false;
  };
  preparing = [];
  rpc_obj = [];
  session = some new_session;
}

abbrev asking_object : ClientInServer
asking_object = record {
  address = 5;
  object_id = "object";
  class_id = "class";
  class_guid = 1 ∷ [];
  attached_connection = some new_proxy;
  requests = [];
  aligned_id_with_server = false;
  creating_tasks = [];
}

abbrev request : RpcRequest
request = record {
  request_id = "r";
  request_id_bytes = [];
  reply_fun_code = 1;
  requester_object_id = "q";
  requester_object = none;
}

abbrev network : Network
network = record {
  facilities = record {
    has_server = true;
    has_buffer = true;
    has_cache = true;
    has_parser = true;
    async_prepare_data = false;
    has_task = false;
    prepare_data = λ e c b d k. none;
  };
  has_kernel = true;
  watched = true;
  script = Answer.wrote 99 ∷ [];
}

-- No task was had.
abbrev silent_proxy : Proxy
silent_proxy = record new_proxy {
  sender = record (new_proxy.sender) {
    send_buffer_index = 1;
    cur_sending_packet_sequence_num = 2;
    asynchronously_mes = false;
  };
}

-- The next request, after the connection is established.
abbrev established_link : Link
established_link = record creating_link { state = State.established }

abbrev second_body : List ℕ
second_body = packet_body [] [] 7 1 (9 ∷ [])

abbrev waiting_proxy : Proxy
waiting_proxy = record silent_proxy {
  sender = record (silent_proxy.sender) {
    send_buffer_index = 2;
    cur_sending_packet_sequence_num = 3;
  };
  outbox = record (silent_proxy.outbox) {
    link = established_link;
    send_buffers =
        (record {
          sequence_num = 2;
          left = encode_header (assembled_header silent_proxy.sender second_body 9) ++ second_body;
        })
        ∷ [];
  };
}

refused_run :
    send_packet_data true false network request 7 (8 ∷ []) asking_object
    ≡ some (12, attach silent_proxy asking_object)
unfolding send_packet_data send_packet konsan_net.Packet.Requests.on_sending
    konsan_net.Packet.Sender.send_buffer konsan_net.Packet.Sender.send_assembled_packet
    konsan_net.Packet.Requests.posted konsan_net.Packet.Sending.post_send encode_header
    konsan_net.Packet.Header.put_word konsan_net.Packet.Header.put_dword
    konsan_net.Packet.Sender.sent_body packet_body konsan_net.Packet.Closing.is_ending
    konsan_net.Packet.Closing.is_closing konsan_net.Packet.Closing.is_closed
    konsan_net.Packet.Closing.is_established konsan_net.Packet.Receiver.push_buffer
    konsan_net.Packet.Header.sum_bytes assembled_header konsan_net.Packet.Sender.numbered
    konsan_net.Packet.Sending.send_data_list konsan_net.Packet.Sending.send_loop
    konsan_net.Packet.Requests.on_sent konsan_net.Packet.Requests.async_connect attach
    konsan_net.Packet.Requests.forget_reply konsan_net.Packet.Requests.free_sending_list
    konsan_net.Packet.Requests.is_creating konsan_net.Packet.Requests.pop_request
    konsan_net.Packet.Requests.push_request konsan_net.Packet.Requests.take_back
    konsan_net.Packet.Requests.expect_reply konsan_net.Prelude.erase konsan_net.Prelude.find
    konsan_net.Prelude.insert konsan_net.Prelude.insert_new
refused_run = refl

waiting_run :
    send_packet network 7 []
      (9 ∷ [])
      (record silent_proxy { outbox = record (silent_proxy.outbox) { link = established_link } })
    ≡ some (true, waiting_proxy)
unfolding send_packet konsan_net.Packet.Requests.on_sending konsan_net.Packet.Sender.send_buffer
    konsan_net.Packet.Sender.send_assembled_packet konsan_net.Packet.Requests.posted
    konsan_net.Packet.Sending.post_send encode_header konsan_net.Packet.Header.put_word
    konsan_net.Packet.Header.put_dword konsan_net.Packet.Sender.sent_body packet_body
    konsan_net.Packet.Closing.is_ending konsan_net.Packet.Closing.is_closing
    konsan_net.Packet.Closing.is_closed konsan_net.Packet.Closing.is_established
    konsan_net.Packet.Receiver.push_buffer konsan_net.Packet.Header.sum_bytes assembled_header
    konsan_net.Packet.Sender.numbered konsan_net.Packet.Sending.send_data_list
    konsan_net.Packet.Sending.send_loop
waiting_run = refl

failed_creation-Sends_example : waiting_proxy.outbox.wire ≡ new_proxy.outbox.wire
unfolding konsan_net.Packet.Requests.is_creating attach
failed_creation-Sends_example =
    failed_creation-Sends true false network request 7 1 (8 ∷ []) asking_object
      (attach silent_proxy asking_object) new_proxy silent_proxy waiting_proxy refl refl
      (omega arith) (omega arith) refused_run refl tt
      (Sends.sent network 7 [] (9 ∷ []) true (Sends.linked established_link Sends.start)
        waiting_run)

abbrev free_object : ClientInServer
free_object = record asking_object { attached_connection = none }
