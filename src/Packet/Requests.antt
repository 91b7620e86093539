-- ===== src/Packet/Requests.antt =====
-- CXCommunicationServer/src/CXRPCObjectClientInServer.cpp: the requests of an object to another server, over
-- the proxy connection that it is attached to. Return values are without their sign, `has_com_server` says
-- that m_pComServer is set, and none is a call of `send` that has not returned. The times of m_pIOStatHandle
-- and the logs are left out.
pub mod TakenBack
pub mod Stalled
pub mod Sends
pub mod Creation
pub mod Dangling
use konsan_net.Prelude.{
  ℕ, Bool, true, false, not, ◌||◌, Option, none, some, List, [], ◌∷◌, ◌++◌, is_empty, ◌==◌,
  if◌then◌else◌, find, insert, insert_new, erase, string_key, ◌&&◌,
}
use Prim.Native.String.{String}
use konsan_net.Server.Objects.{ObjectManager, find_using_object}
use konsan_net.Server.Session.{ConnectionSession, add_object, remove_object}
use konsan_net.Packet.Closing.{State, ClosedType, Link, close_connection}
use konsan_net.Packet.Sender.{Sender, Facilities, Sending, send_buffer}
use konsan_net.Packet.Sending.{Answer, Outbox, Outcome, post_send}

-- CXRPCRequest, with the object that asks as its number.
pub record RpcRequest : Type 0 where
  pub request_id : String
  pub request_id_bytes : List ℕ
  pub reply_fun_code : ℕ
  pub requester_object_id : String
  pub requester_object : Option ℕ

-- The parts of the attached connection that the object uses, and its session; `preparing` are the numbers and
-- bodies that CXTaskPrepareMessage tasks have to prepare and post.
pub record Proxy : Type 0 where
  pub sender : Sender
  pub outbox : Outbox
  pub preparing : List (ℕ × List ℕ)
  pub rpc_obj : List (String × ℕ)
  pub session : Option ConnectionSession

-- The object with its number, its guids, and the first requests of the CXTaskCreateConnection it pushed.
pub record ClientInServer : Type 0 where
  pub address : ℕ
  pub object_id : String
  pub class_id : String
  pub class_guid : List ℕ
  pub attached_connection : Option Proxy
  pub requests : List (String × RpcRequest)
  pub aligned_id_with_server : Bool
  pub creating_tasks : List String

-- What a call of SendPacket meets: the connection's surroundings, whether m_pSocketKernel is set, whether
-- epoll takes the socket, and the answers of `send`.
pub record Network : Type 0 where
  pub facilities : Facilities
  pub has_kernel : Bool
  pub watched : Bool
  pub script : List Answer

-- PushRequest and PopRequest; none stands for a request with the empty id.
unfoldable pub push_request : RpcRequest → ClientInServer → ClientInServer
push_request r o = record o { requests = insert_new r.request_id r o.requests }

unfoldable pub pop_request : String → ClientInServer → Option RpcRequest × ClientInServer
pop_request i o = elim (find i o.requests) [
  | none ↦ (none, o)
  | some r ↦ (some r, record o { requests = erase i o.requests })
]

unfoldable pub posted : Outcome → Proxy → Option (Bool × Proxy)
posted (Outcome.result e box) p = some (e == 0, record p { outbox = box })
posted (Outcome.in_call box) p = none

-- What SendPacket of the proxy connection does with the packet, and SendPacket with the bytes of the
-- request's guid.
unfoldable pub on_sending : Network → Sending → Proxy → Option (Bool × Proxy)
on_sending n Sending.refused p = some (false, p)
on_sending n (Sending.prepare_task num body) p =
    some (true, record p { preparing = p.preparing ++ (num, body) ∷ [] })
on_sending n (Sending.posted num packet) p =
    posted
      (post_send n.has_kernel n.watched n.script (record { sequence_num = num; left = packet })
        p.outbox)
      p

unfoldable pub send_packet : Network → ℕ → List ℕ → List ℕ → Proxy → Option (Bool × Proxy)
send_packet n code request_id_bytes pb_data p =
    let asked = record (p.sender) { request_id = request_id_bytes } in
    let (s, sending) = send_buffer n.facilities code none pb_data asked in
    if not n.facilities.has_server
    then some (false, record p { sender = asked })
    else on_sending n sending (record p { sender = s })

unfoldable pub is_creating : State → Bool
is_creating State.creating = true
is_creating State.initialized = false
is_creating State.pending = false
is_creating State.established = false
is_creating State.closing = false
is_creating State.closed = false

-- AsyncConnect: 11 is CXRET_ASYNC_CALLBACK, 12 CXRET_ALLOCATE_TASK_FAILED. `has_task` says that the pool and
-- a task object are there.
unfoldable pub async_connect :
    Bool → Bool → String → Proxy → ClientInServer → ℕ × (Proxy × ClientInServer)
async_connect has_com_server has_task i p o =
    if not has_com_server
    then (1, (p, o))
    else if not (is_creating p.outbox.link.state)
    then (0, (p, o))
    else if has_task
    then (11, (p, record o { creating_tasks = o.creating_tasks ++ i ∷ [] }))
    else (12, (record p { sender = record (p.sender) { asynchronously_mes = false } }, o))

-- PushRPCObj and PopRPCObj of a connection whose peer does not know the object's guid yet.
unfoldable pub expect_reply : Bool → String → ℕ → Proxy → Proxy
expect_reply aligned i a p = if aligned then p else record p { rpc_obj = insert i a p.rpc_obj }

unfoldable pub forget_reply : Bool → String → Proxy → Proxy
forget_reply aligned i p = if aligned then p else record p { rpc_obj = erase i p.rpc_obj }

-- FreeSendingList
unfoldable pub free_sending_list : Proxy → Proxy
free_sending_list p = record p { outbox = record (p.outbox) { send_buffers = [] } }

unfoldable pub attach : Proxy → ClientInServer → ClientInServer
attach p o = record o { attached_connection = some p }

-- A request is taken back: its packet was not sent, or no connection can be made.
unfoldable pub take_back : String → Proxy → ClientInServer → ClientInServer
take_back i p o = (pop_request i (attach (forget_reply o.aligned_id_with_server i p) o)).1

-- SendPacket has succeeded.
unfoldable pub on_sent : Bool → Bool → String → Proxy → ClientInServer → ℕ × ClientInServer
on_sent has_com_server has_task i p o =
    let (e, (q, c)) = async_connect has_com_server has_task i p o in
    if not (is_creating p.outbox.link.state)
    then (0, attach p o)
    else if e == 0 || e == 11
    then (0, attach q c)
    else (e, take_back i (free_sending_list q) c)

-- SendPacketData: 5 is CXRET_SEND_DATA_FAILED.
unfoldable pub send_packet_data :
    Bool → Bool → Network → RpcRequest → ℕ → List ℕ → ClientInServer → Option (ℕ × ClientInServer)
send_packet_data has_com_server has_task n r code pb_data o = elim o.attached_connection [
  | none ↦ some (1, o)
  | some p ↦
      let asking = push_request r o in
      if is_empty pb_data || code == 0
      then some (1, o)
      else elim (send_packet n code r.request_id_bytes pb_data
          (expect_reply o.aligned_id_with_server r.request_id o.address p)) [
            | none ↦ none
            | some (true, q) ↦ some (on_sent has_com_server has_task r.request_id q asking)
            | some (false, q) ↦ some (5, take_back r.request_id q asking)
          ]
]

-- The object that ReplyRequester replies to: the requester where it still has the guid it asked with, or the
-- object in use of that guid.
unfoldable pub is_requester : RpcRequest → ObjectManager → ℕ → Bool
is_requester r m a =
    (m.object a).is_using && string_key.beq (m.object a).object_id r.requester_object_id

unfoldable pub found_requester : RpcRequest → ObjectManager → Option ℕ
found_requester r m = elim (find_using_object r.requester_object_id m) [
  | none ↦ none
  | some a ↦ if is_requester r m a then some a else none
]

unfoldable pub find_requester : RpcRequest → ObjectManager → Option ℕ
find_requester r m = elim r.requester_object [
  | none ↦ found_requester r m
  | some a ↦ if is_requester r m a then some a else found_requester r m
]

-- OnCreateConnectionError and OnSendDataError: the object that is told 503, where one waits for the request
-- and the connection, which has an object manager, is still there.
unfoldable pub on_error : String → ObjectManager → ClientInServer → Option ℕ × ClientInServer
on_error i m o =
    let (r, left) = pop_request i o in
    elim r [
      | none ↦ (none, left)
      | some q ↦
          if string_key.beq q.request_id ""
          then (none, left)
          else (elim o.attached_connection [ none ↦ none | some p ↦ find_requester q m ], left)
    ]

-- Create, given what GetProxyConnection returns: 2 is CXRET_CREATE_SOCKET_FAILED. The session knows the
-- object by its guid.
unfoldable pub create : Bool → Option Proxy → ClientInServer → ℕ × ClientInServer
create has_com_server found o = if not has_com_server then (1, o) else elim o.attached_connection [
  | some p ↦ (0, o)
  | none ↦ elim found [
    | none ↦ (2, o)
    | some p ↦
        let named = record p { sender = record (p.sender) { object_id = o.class_guid } } in
        elim p.session [
          | none ↦ (2, attach named o)
          | some s ↦ (
            0,
            attach (record named { session = some (add_object o.object_id (some o.address) s) }) o,
          )
        ]
  ]
]

-- UnCreate: the connection, which is left to DetachProxyConnection where nothing is outstanding, and the
-- object without it.
unfoldable pub is_idle : Link → Bool
is_idle l =
    l.number_of_received_buffer_in_list == 0
    && l.posted_sent_buffers == 0
    && l.number_of_received_packet_in_queue == 0

unfoldable pub leave : Proxy → Proxy
leave p =
    let freed = free_sending_list p in
    if is_idle p.outbox.link then freed else record freed {
      outbox = record (freed.outbox) {
        link = close_connection ClosedType.error_in_process freed.outbox.link;
      };
    }

unfoldable pub leave_session : String → Proxy → Proxy
leave_session i p = elim p.session [
  | none ↦ p
  | some s ↦ record p { session = some (remove_object i s) }
]

unfoldable pub un_create : Bool → ClientInServer → Option Proxy × ClientInServer
un_create has_com_server o = if not has_com_server then (none, o) else elim o.attached_connection [
  | none ↦ (none, o)
  | some p ↦ (some (leave (leave_session o.class_id p)), record o { attached_connection = none })
]
