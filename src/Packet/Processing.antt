-- ===== src/Packet/Processing.antt =====
-- CXCommunicationServer/src/CXConnectionObject.cpp: ProcessUnpackedMessage, PushRPCObj, PopRPCObj and
-- GetRPCObj. Messages are served in the order of their numbers. The session is that of Server/Session, the
-- objects those of Server/Objects, and the connection that of Packet/Closing. PushMessage keeps the list as
-- PushReceivedBuffer does. What a class of objects does itself (ProcessMessage, Destroy) is an argument.
pub mod Steps
pub mod InOrder
pub mod Called
use konsan_net.Prelude.{
  ℕ, zero, suc, ◌+◌, Bool, true, false, not, ◌&&◌, ◌||◌, Option, none, some, List, [], ◌∷◌, ◌++◌,
  ltb, ◌==◌, if◌then◌else◌, add64, sub64, find, insert, erase, string_key,
}
use Prim.Native.String.{String}
use konsan_net.Server.Session.{ConnectionSession, find_object, add_object, remove_object}
use konsan_net.Server.Objects.{ObjectManager, get_free_object, free_object}
use konsan_net.Packet.Closing.{Link, ClosedType, is_closing, close_connection}

pub record Message : Type 0 where
  pub sequence_num : ℕ
  pub object_guid : String
  pub request_id : String

-- What ProcessMessage returned (0 is RETURN_SUCCEED), whether that is CXRET_ASYNC_CALLBACK, whether a task
-- took the message's answer over, and IsNeedToDestroy.
pub record Served : Type 0 where
  pub code : ℕ
  pub is_callback : Bool
  pub made_asynchronous : Bool
  pub destroys : Bool

-- The classes of objects, the guid of a new object, and what CreateObject returns.
pub record Classes : Type 0 where
  pub process_message : ℕ → Message → Served
  pub destroy : ℕ → ObjectManager → ObjectManager
  pub new_guid : Message → String
  pub created : Message → Option ℕ

-- `calls` are the calls of ProcessMessage, each an object and the number of its message, `taken_off` the
-- numbers of the messages that were taken off the list, `freed` those of the messages that were freed, and
-- `aligned` the objects whose id was set to that of the other server.
pub record Processor : Type 0 where
  pub messages : List Message
  pub last_processed_message_sequence_num : ℕ
  pub link : Link
  pub session : Option ConnectionSession
  pub manager : ObjectManager
  pub rpc_obj : List (String × ℕ)
  pub is_proxy_connection : Bool
  pub object_id : String
  pub encrypt_type : ℕ
  pub compress_type : ℕ
  pub asynchronously_mes : Bool
  pub async_prepare_data : Bool
  pub aligned : List ℕ
  pub calls : List (ℕ × ℕ)
  pub taken_off : List ℕ
  pub freed : List ℕ

unfoldable pub push_rpc_obj : String → ℕ → Processor → Processor
push_rpc_obj guid o p = record p { rpc_obj = insert guid o p.rpc_obj }

unfoldable pub pop_rpc_obj : String → Processor → Option ℕ × Processor
pop_rpc_obj guid p = elim (find guid p.rpc_obj) [
  | none ↦ (none, p)
  | some o ↦ (some o, record p { rpc_obj = erase guid p.rpc_obj })
]

unfoldable pub get_rpc_obj : String → Processor → Option ℕ
get_rpc_obj guid p = find guid p.rpc_obj

-- The object that a proxy's request is waiting for gets the guid that the other server gave it.
unfoldable pub align_object : Message → ℕ → ConnectionSession → Processor → Processor
align_object m o s p =
    let left = remove_object (p.manager.object o).object_id s in
    record p {
      object_id = m.object_guid;
      session = some (add_object m.object_guid (some o) left);
      aligned = p.aligned ++ o ∷ [];
    }

-- The object in the session.
unfoldable pub find_in_session : Message → Processor → Option ℕ × Processor
find_in_session m p = elim p.session [
  | none ↦ (none, p)
  | some s ↦
      let (o, popped) = pop_rpc_obj m.request_id p in
      elim (find_object m.object_guid s) [
        | some a ↦ (some a, p)
        | none ↦
            if p.is_proxy_connection
            then elim o [ none ↦ (none, popped) | some a ↦ (some a, align_object m a s popped) ]
            else (none, p)
      ]
]

abbrev pub unknown_object : String
unknown_object = "{0307F567-72FC-4355-8192-9E37DC766D2E}"

-- A new object, which is entered into the session, and the message that then names it.
unfoldable pub enter_object : Message → ℕ → Processor → Message × Processor
enter_object m a p =
    let guid = (p.manager.object a).object_id in
    if (p.manager.object a).is_unique_instance then (m, p) else elim p.session [
      | none ↦ (m, p)
      | some s ↦ (
        record m { object_guid = guid },
        record p { session = some (add_object guid (some a) s) },
      )
    ]

unfoldable pub get_object : Classes → Message → Processor → Option ℕ × (Message × Processor)
get_object c m p =
    let (o, n) = get_free_object (c.new_guid m) (c.created m) m.object_guid p.manager in
    let (u, k) = get_free_object (c.new_guid m) (c.created m) unknown_object n in
    elim o [
      | some a ↦ (some a, enter_object m a (record p { manager = n }))
      | none ↦ (u, (m, record p { manager = k }))
    ]

unfoldable pub look_up : Classes → Message → Processor → Option ℕ × (Message × Processor)
look_up c m p =
    let (o, n) = find_in_session m p in
    elim o [ some a ↦ (some a, (m, n)) | none ↦ get_object c m n ]

-- One message: its object, whether its answer comes later, iRet and bNeedClose.
pub record Turn : Type 0 where
  pub object : Option ℕ
  pub is_asynchronous : Bool
  pub destroys : Bool
  pub code : ℕ
  pub need_close : Bool
  pub processor : Processor

unfoldable pub call_object : Classes → ℕ → Message → Bool → Processor → Turn
call_object c a m need_close p =
    let s = c.process_message a m in
    record {
      object = some a;
      is_asynchronous = (not (s.code == 0) && s.is_callback) || s.made_asynchronous;
      destroys = s.destroys;
      code = s.code;
      need_close = need_close || (not (s.code == 0) && not s.is_callback);
      processor = record p {
        asynchronously_mes = s.made_asynchronous;
        async_prepare_data = not (p.encrypt_type == 0) || not (p.compress_type == 0);
        calls = p.calls ++ (a, m.sequence_num) ∷ [];
      };
    }

unfoldable pub serve : Classes → Message → ℕ → Bool → Processor → Turn
serve c m code need_close p =
    let (o, (n, q)) = look_up c m p in
    if string_key.beq m.object_guid ""
    then record {
      object = none;
      is_asynchronous = false;
      destroys = false;
      code = code;
      need_close = true;
      processor = p;
    }
    else elim o [
      | none ↦ record {
        object = none;
        is_asynchronous = false;
        destroys = false;
        code = code;
        need_close = need_close;
        processor = q;
      }
      | some a ↦ call_object c a n need_close q
    ]

-- The message is taken off the list.
unfoldable pub take_message : Message → List Message → Processor → Processor
take_message m rest p = record p { messages = rest; taken_off = p.taken_off ++ m.sequence_num ∷ [] }

-- A message whose answer is given: it is counted and freed, its object destroyed on request, and the
-- connection closed where that is wanted or was begun.
unfoldable pub count_message : Message → Processor → Processor
count_message m p = record p {
  last_processed_message_sequence_num = add64 p.last_processed_message_sequence_num 1;
  link = record (p.link) {
    number_of_received_packet_in_queue = sub64 p.link.number_of_received_packet_in_queue 1;
  };
  freed = p.freed ++ m.sequence_num ∷ [];
}

unfoldable pub destroy_object : Classes → Turn → Processor → Processor
destroy_object c t p = elim t.object [
  | none ↦ p
  | some a ↦ if t.destroys then record p { manager = free_object a (c.destroy a p.manager) } else p
]

unfoldable pub close_link : Bool → Link → Link
close_link need_close l =
    if need_close
    then close_connection ClosedType.error_in_process l
    else if is_closing l.state
    then close_connection ClosedType.socket_closed l
    else l

unfoldable pub end_message : Classes → Message → Turn → Processor → Processor
end_message c m t p =
    let n = destroy_object c t (count_message m p) in
    record n { link = close_link t.need_close n.link }

-- The loop: nothing resets iRet and bNeedClose.
unfoldable pub process_loop : Classes → ℕ → Bool → List Message → Processor → ℕ × Processor
process_loop c code need_close [] p = (code, p)
process_loop c code need_close (m ∷ rest) p =
    let t = serve c m code need_close p in
    let taken = take_message m rest t.processor in
    let later = process_loop c t.code t.need_close rest (end_message c m t taken) in
    if not (m.sequence_num == add64 p.last_processed_message_sequence_num 1)
    then (code, p)
    else if t.is_asynchronous
    then (t.code, taken)
    else later

-- PushMessage, as PushReceivedBuffer: a number that the last message has already is left out.
unfoldable pub push_in_order : Message → List Message → List Message
push_in_order b [] = b ∷ []
push_in_order b (x ∷ []) =
    if ltb b.sequence_num x.sequence_num
    then b ∷ x ∷ []
    else if ltb x.sequence_num b.sequence_num
    then x ∷ b ∷ []
    else x ∷ []
push_in_order b (x ∷ y ∷ ys) =
    let rest = push_in_order b (y ∷ ys) in
    if ltb b.sequence_num x.sequence_num then b ∷ x ∷ y ∷ ys else x ∷ rest

-- ProcessUnpackedMessage of a message, or of NULL, where the manager and the server are set.
unfoldable pub process_unpacked_message : Classes → Option Message → Processor → ℕ × Processor
process_unpacked_message c none p = process_loop c 0 false p.messages p
process_unpacked_message c (some m) p =
    let list = push_in_order m p.messages in
    process_loop c 0 false list (record p { messages = list })
