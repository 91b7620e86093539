-- ===== src/Packet/Closing.antt =====
-- CXCommunicationServer/src/CXConnectionObject.cpp, Close, and CXCommunicationServer.cpp, CloseConnection:
-- the states of a connection, CONNECTION_STATE, up to its release. The calls that it makes to the rest
-- of the server are counted.
pub mod Account
pub mod Once
pub mod Ends
use konsan_net.Prelude.{
  ℕ, suc, ◌+◌, ◌-◌, Bool, true, false, not, ◌&&◌, ◌||◌, Option, none, some, ◌==◌, if◌then◌else◌,
  sub64,
}

pub data State : Type 0 where
  initialized : State
  creating : State
  pending : State
  established : State
  closing : State
  closed : State

pub data ClosedType : Type 0 where
  normal : ClosedType
  server_exit : ClosedType
  time_out : ClosedType
  illegal_connection : ClosedType
  error_in_process : ClosedType
  socket_closed : ClosedType
  socket_peer_closed : ClosedType
  socket_other_error : ClosedType

unfoldable pub is_closed : State → Bool
is_closed State.closed = true
is_closed State.initialized = false
is_closed State.creating = false
is_closed State.pending = false
is_closed State.established = false
is_closed State.closing = false

unfoldable pub is_closing : State → Bool
is_closing State.closing = true
is_closing State.initialized = false
is_closing State.creating = false
is_closing State.pending = false
is_closing State.established = false
is_closing State.closed = false

-- CLOSING or CLOSED; the states below CLOSING are the others.
unfoldable pub is_ending : State → Bool
is_ending s = is_closing s || is_closed s

unfoldable pub is_established : State → Bool
is_established State.established = true
is_established State.initialized = false
is_established State.creating = false
is_established State.pending = false
is_established State.closing = false
is_established State.closed = false

-- PENDING or ESTABLISHED: epoll has the connection.
unfoldable pub is_attached : State → Bool
is_attached State.pending = true
is_attached State.established = true
is_attached State.initialized = false
is_attached State.creating = false
is_attached State.closing = false
is_attached State.closed = false

-- The state, the counters, the length of m_pListReadBuf, how many connections the session has, and how
-- often DetachConnetionToModel, the closesocket of Close, RemoveConnection, CloseSession and
-- ReleaseConnection ran.
pub record Link : Type 0 where
  pub state : State
  pub posted_sent_buffers : ℕ
  pub posted_recv_buffers : ℕ
  pub number_of_received_buffer_in_list : ℕ
  pub number_of_received_packet_in_queue : ℕ
  pub read_buffers : ℕ
  pub session : Option ℕ
  pub detached : ℕ
  pub sockets_closed : ℕ
  pub removed : ℕ
  pub sessions_closed : ℕ
  pub released : ℕ

unfoldable pub close_socket : Link → Link
close_socket l =
    if is_ending l.state
    then l
    else record l { state = State.closing; sockets_closed = l.sockets_closed + 1 }

-- Close
unfoldable pub free_read_list : Link → Link
free_read_list l =
    if l.posted_sent_buffers == 0 && not (l.read_buffers == 0)
    then record l { read_buffers = 0; number_of_received_buffer_in_list = 0 }
    else l

unfoldable pub close : Link → Link
close l = free_read_list (close_socket l)

unfoldable pub is_drained : Link → Bool
is_drained l =
    l.number_of_received_buffer_in_list == 0
    && l.posted_sent_buffers == 0
    && l.posted_recv_buffers == 0
    && l.number_of_received_packet_in_queue == 0

-- RemoveConnection, and CloseSession of a session without connections.
unfoldable pub leave_session : Option ℕ → Link → Link
leave_session none l = l
leave_session (some n) l =
    let left = record l { session = some (n - 1); removed = l.removed + 1 } in
    if n - 1 == 0 then record left { sessions_closed = l.sessions_closed + 1 } else left

unfoldable pub release : Link → Link
release l =
    let gone = leave_session l.session (record l { state = State.closed }) in
    record gone { released = l.released + 1 }

unfoldable pub detach : Link → Link
detach l = if is_attached l.state then record l { detached = l.detached + 1 } else l

-- CloseConnection; its type goes to the log.
unfoldable pub close_connection : ClosedType → Link → Link
close_connection t l =
    let shut = close (detach l) in
    if is_closed l.state then l else if is_drained shut then release shut else shut
