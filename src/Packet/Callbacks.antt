-- ===== src/Packet/Callbacks.antt =====
-- CXCommunicationServer/src/CXConnectionObject.cpp: CallbackTaskProcess and ProcessAsyncMessageEnd, which
-- run when a task of a connection has ended. What a static object does in AsynCallbackResult is its own.
pub mod CaughtUp
use konsan_net.Prelude.{
  ℕ, Bool, true, false, ◌&&◌, Option, none, some, ◌==◌, if◌then◌else◌, add64, sub64, string_key,
}
use Prim.Native.String.{String}
use konsan_net.Server.Objects.{get_static_object}
use konsan_net.Packet.Closing.{Link, ClosedType, is_closed, is_ending, close_connection}
use konsan_net.Packet.Processing.{Message, Processor, pop_rpc_obj, unknown_object}

-- CX_RUNING_TASK_TYPE.
pub data TaskType : Type 0 where
  parse_data : TaskType
  prepare_data : TaskType
  calcution : TaskType
  create_conneciton : TaskType

-- The end of a task for a packet that could not be parsed closes the connection.
unfoldable pub close_unparsed : Link → Link
close_unparsed l = if is_closed l.state then l else close_connection ClosedType.error_in_process l

-- CallbackTaskProcess: the message that is pushed again, with dwType 2, to be ended by
-- ProcessAsyncMessageEnd, and the connection.
unfoldable pub callback_task_process :
    ℕ → TaskType → Option Message → String → Processor → Option Message × Processor
callback_task_process result TaskType.parse_data mes request p =
    if result == 0 then (none, p) else (none, record p { link = close_unparsed p.link })
callback_task_process result TaskType.prepare_data none request p =
    if string_key.beq request "" then (none, p) else (none, (pop_rpc_obj request p).1)
callback_task_process result TaskType.prepare_data (some m) request p = (some m, p)
callback_task_process result TaskType.calcution mes request p = (none, p)
callback_task_process result TaskType.create_conneciton mes request p = (none, p)

-- The static object whose AsynCallbackResult is called.
unfoldable pub static_object : Message → Processor → Option ℕ
static_object m p =
    if string_key.beq m.object_guid ""
    then none
    else elim (get_static_object m.object_guid p.manager) [
      | some a ↦ some a
      | none ↦ get_static_object unknown_object p.manager
    ]

unfoldable pub close_ended : Bool → Link → Link
close_ended failed l =
    if failed
    then close_connection ClosedType.error_in_process l
    else if is_ending l.state
    then close_connection ClosedType.socket_closed l
    else l

-- ProcessAsyncMessageEnd; `failed` says that iProcessedRet is -2.
unfoldable pub process_async_message_end : Message → Bool → Processor → Option ℕ × Processor
process_async_message_end m failed p =
    let counted = record (p.link) {
      number_of_received_packet_in_queue = sub64 p.link.number_of_received_packet_in_queue 1;
    } in
    (
      static_object m p,
      record p {
        last_processed_message_sequence_num = add64 p.last_processed_message_sequence_num 1;
        link = close_ended failed counted;
      },
    )
