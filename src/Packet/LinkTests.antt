-- ===== src/Packet/LinkTests.antt =====
-- A connection at concrete states: sending, closing and serving.
use konsan_net.Prelude.{inr, ◌≡◌, refl, true, false, none, some, List, [], ◌∷◌, ◌++◌}
use konsan_net.Server.Objects.{RpcObject, new_object_manager}
use konsan_net.Packet.Closing.{State, ClosedType, Link, close_connection}
use konsan_net.Packet.Closing.Account.{Calls}
use konsan_net.Packet.Closing.Ends.{close_connection_closes}
use konsan_net.Packet.Sending.{Answer, Outbox, Outcome, send_data_list}
use konsan_net.Packet.Sending.Conserved.{Healthy, Settled, unsent, send_data_list-Kept}
use konsan_net.Packet.Reading.{Input, Reader}
use konsan_net.Packet.Reading.Reads.{Reads}
use konsan_net.Packet.Processing.{
  Message, Classes, Processor, push_in_order, process_unpacked_message,
}
use konsan_net.Server.Session.{ConnectionSession, new_session}
use konsan_net.Packet.Processing.Called.{Known, Called, process_unpacked_message-Called}
use konsan_net.Packet.Processing.InOrder.{InOrder}

-- An established connection with two buffers in its read list and nothing else.
abbrev open_link : Link
open_link = record {
  state = State.established;
  posted_sent_buffers = 0;
  posted_recv_buffers = 0;
  number_of_received_buffer_in_list = 2;
  number_of_received_packet_in_queue = 0;
  read_buffers = 2;
  session = some 1;
  detached = 0;
  sockets_closed = 0;
  removed = 0;
  sessions_closed = 0;
  released = 0;
}

close_connection_closes_example :
    ((close_connection ClosedType.normal open_link).state ≡ State.closed)
    × ((close_connection ClosedType.normal open_link).released ≡ 1)
unfolding konsan_net.Packet.Closing.is_closed
close_connection_closes_example =
    close_connection_closes open_link ClosedType.normal refl refl refl refl refl

-- Two packets in order and a third with a gap before it; the socket takes three bytes, is interrupted,
-- takes two, and is then full.
abbrev outbox : Outbox
outbox = record {
  send_buffers =
      (record { sequence_num = 1; left = 10 ∷ 11 ∷ 12 ∷ 13 ∷ [] })
      ∷ (record { sequence_num = 2; left = 20 ∷ 21 ∷ [] })
      ∷ (record { sequence_num = 4; left = 40 ∷ [] })
      ∷ [];
  last_sent_packet_sequence_num = 0;
  link = open_link;
  wire = [];
  waits_writing = false;
}

abbrev script : List Answer
script = Answer.wrote 2 ∷ Answer.interrupted ∷ Answer.wrote 0 ∷ Answer.wrote 0 ∷ Answer.again ∷ []

abbrev sent_outbox : Outbox
sent_outbox = record outbox {
  send_buffers =
      (record { sequence_num = 2; left = 21 ∷ [] })
      ∷ (record { sequence_num = 4; left = 40 ∷ [] })
      ∷ [];
  last_sent_packet_sequence_num = 1;
  wire = 10 ∷ 11 ∷ 12 ∷ 13 ∷ 20 ∷ [];
  waits_writing = true;
}

send_data_list-Kept_example :
    (sent_outbox.wire ++ unsent sent_outbox ≡ outbox.wire ++ unsent outbox) × Settled 0 sent_outbox
unfolding send_data_list konsan_net.Packet.Sending.send_loop konsan_net.Packet.Sending.send_bytes
    konsan_net.Packet.Sending.next_buffer konsan_net.Packet.Sending.put_off_buffer
    konsan_net.Packet.Sending.close_after konsan_net.Packet.Closing.is_closing
send_data_list-Kept_example =
    send_data_list-Kept true script outbox sent_outbox 0
      (Healthy.wrote
        (Healthy.interrupted (Healthy.wrote (Healthy.wrote (Healthy.again Healthy.done)))))
      refl

abbrev no_object : RpcObject
no_object = record { object_id = ""; class_id = ""; is_unique_instance = false; is_using = false }

abbrev processor : Processor
processor = record {
  messages = (record { sequence_num = 2; object_guid = "a"; request_id = "r" }) ∷ [];
  last_processed_message_sequence_num = 0;
  link = open_link;
  session = none;
  manager = new_object_manager (λ a. no_object);
  rpc_obj = [];
  is_proxy_connection = false;
  object_id = "";
  encrypt_type = 0;
  compress_type = 0;
  asynchronously_mes = false;
  async_prepare_data = false;
  aligned = [];
  calls = [];
  taken_off = [];
  freed = [];
}

abbrev classes : Classes
classes = record {
  process_message =
      λ a m. record { code = 0; is_callback = false; made_asynchronous = false; destroys = false };
  destroy = λ a m. m;
  new_guid = λ m. "n";
  created = λ m. none;
}

abbrev first_message : Message
first_message = record { sequence_num = 1; object_guid = "a"; request_id = "q" }

-- The processor with a session that has the object that the messages name.
abbrev with_object : ConnectionSession
with_object = record new_session { objects = ("a", some 7) ∷ [] }

process_unpacked_message-Called_example :
    Called with_object
      (push_in_order first_message processor.messages)
      (record processor { session = some with_object })
      (process_unpacked_message classes
        (some first_message)
        (record processor { session = some with_object })).1
unfolding push_in_order Known konsan_net.Server.Session.find_object konsan_net.Prelude.find
process_unpacked_message-Called_example =
    process_unpacked_message-Called classes first_message
      (record processor { session = some with_object }) with_object refl
      (inr (7, refl), (inr (7, refl), tt))

-- Three bytes, an interrupt, two bytes, and then nothing more has arrived.
abbrev five_bytes : List Input
five_bytes =
    Input.bytes 1 (2 ∷ 3 ∷ []) ∷ Input.interrupted ∷ Input.bytes 4 (5 ∷ []) ∷ Input.again ∷ []

abbrev ninth : Reader
ninth = record { recv_buffer_index = 9; link = open_link }
