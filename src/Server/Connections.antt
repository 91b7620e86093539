-- ===== src/Server/Connections.antt =====
-- CXCommunicationServer/src/CXConnectionsManager.cpp. Connections are pointers, as numbers; what the
-- manager reads of a CXConnectionObject is a record at its address, and `allocated` is the first address
-- that was not handed out. Times are milliseconds. `proxy_address` is what sprintf_s prints with
-- "%s:%d". The callback m_pfOnClose is an argument. GetFreeConnectionObj is none where operator new
-- throws.
pub mod Calls
pub mod Conserving
pub mod Lifecycle
pub mod Release
pub mod Proxy
use konsan_net.Prelude.{
  ℕ, zero, suc, ◌+◌, ◌-◌, ◌*◌, ◌/◌, ◌%◌, ◌^◌, Bool, true, false, ◌&&◌, not, Option, none, some,
  List, [], ◌∷◌, ◌++◌, length, ltb, leb, ◌==◌, if◌then◌else◌, add64, find, insert, insert_new,
  erase, filter, values, string_key, nat_key,
}
use konsan_net.Chain.{set_at}
use konsan_net.Server.Digits.{print_decimal}
use Prim.Native.String.{String, ◌++◌ as ◌⊕◌}

pub data ConnectionState : Type 0 where
  initialized : ConnectionState
  creating : ConnectionState
  pending : ConnectionState
  established : ConnectionState
  closing : ConnectionState
  closed : ConnectionState

pub record Connection : Type 0 where
  pub connection_index : ℕ
  pub remote_ip : String
  pub remote_port : ℕ
  pub state : ConnectionState
  pub proxy_connection : Bool
  pub time_out_m_seconds : ℕ
  pub last_packet_time : ℕ
  pub accept_time : ℕ
  pub released_time : ℕ

-- CXConnectionObject::CXConnectionObject, which calls Reset.
unfoldable pub new_connection : Connection
new_connection = record {
  connection_index = 0;
  remote_ip = "";
  remote_port = 0;
  state = ConnectionState.initialized;
  proxy_connection = false;
  time_out_m_seconds = 60000;
  last_packet_time = 0;
  accept_time = 0;
  released_time = 0;
}

pub record ConnectionsManager : Type 0 where
  pub pending_connections : List (ℕ × ℕ)
  pub using_connections : List (ℕ × ℕ)
  pub attach_proxy_connections_pool : List (String × List (ℕ × ℕ))
  pub detached_proxy_connections_pool : List (String × List ℕ)
  pub free_connections : List ℕ
  pub released_connections : List ℕ
  pub current_connection_index : ℕ
  pub connection : ℕ → Connection
  pub allocated : ℕ

unfoldable pub new_connections_manager : ConnectionsManager
new_connections_manager = record {
  pending_connections = [];
  using_connections = [];
  attach_proxy_connections_pool = [];
  detached_proxy_connections_pool = [];
  free_connections = [];
  released_connections = [];
  current_connection_index = 0;
  connection = λ _. new_connection;
  allocated = 0;
}

unfoldable pub index : ℕ → ConnectionsManager → ℕ
index a m = (m.connection a).connection_index

-- FindConnectionInPendingMap
unfoldable pub find_connection_in_pending_map : ℕ → ConnectionsManager → Option ℕ
find_connection_in_pending_map i m = find i m.pending_connections

-- The loop of GetFreeConnectionObj: new connections, put at the end of the free queue.
unfoldable pub create_connections : ℕ → ConnectionsManager → ConnectionsManager
create_connections zero m = m
create_connections (suc k) m = create_connections k (record m {
  free_connections = m.free_connections ++ m.allocated ∷ [];
  connection = set_at m.connection m.allocated new_connection;
  allocated = suc m.allocated;
})

unfoldable pub set_state : ConnectionState → ℕ → ConnectionsManager → ConnectionsManager
set_state s a m =
    let c : Connection = record (m.connection a) { state = s } in
    record m { connection = set_at m.connection a c }

-- The first of the free queue, which is not empty here.
unfoldable pub take_first : List ℕ → ConnectionsManager → Option (ℕ × ConnectionsManager)
take_first [] m = none
take_first (a ∷ rest) m =
    some (a, set_state ConnectionState.initialized a (record m { free_connections = rest }))

unfoldable pub take_free : ConnectionsManager → Option (ℕ × ConnectionsManager)
take_free m = take_first m.free_connections m

-- The new connections of an empty queue; operator new may throw.
unfoldable pub refill : Bool → ConnectionsManager → Option ConnectionsManager
refill false m = none
refill true m = some (create_connections 1000 m)

-- GetFreeConnectionObj
unfoldable pub get_free_connection_obj : Bool → ConnectionsManager → Option (ℕ × ConnectionsManager)
get_free_connection_obj succeeds m =
    let filled = if length m.free_connections == 0 then refill succeeds m else some m in
    elim filled [ none ↦ none | some n ↦ take_free n ]

-- AddPendingConnection: whether the index was new.
unfoldable pub add_pending_connection : ℕ → ConnectionsManager → Bool × ConnectionsManager
add_pending_connection a m = elim (find (index a m) m.pending_connections) [
  | none ↦ (true, record m { pending_connections = insert (index a m) a m.pending_connections })
  | some b ↦ (false, m)
]

-- RemovePendingConnection of an index, and of a connection.
unfoldable pub remove_pending_index : ℕ → ConnectionsManager → ConnectionsManager
remove_pending_index i m = record m { pending_connections = erase i m.pending_connections }

unfoldable pub remove_pending_connection : ℕ → ConnectionsManager → ConnectionsManager
remove_pending_connection a m = remove_pending_index (index a m) m

-- AddFreeConnectionObj
unfoldable pub add_free_connection_obj : ℕ → ConnectionsManager → ConnectionsManager
add_free_connection_obj a m = record m { free_connections = m.free_connections ++ a ∷ [] }

-- AddUsingConnection, which leaves out a proxy and an index that is used.
unfoldable pub add_using_connection : ℕ → ConnectionsManager → ConnectionsManager
add_using_connection a m =
    if (m.connection a).proxy_connection then m else elim (find (index a m) m.using_connections) [
      | none ↦ record m { using_connections = insert (index a m) a m.using_connections }
      | some b ↦ m
    ]

-- FindUsingConnection
unfoldable pub find_using_connection : ℕ → ConnectionsManager → Option ℕ
find_using_connection i m = find i m.using_connections

-- GetCurrentConnectionIndex
unfoldable pub get_current_connection_index : ConnectionsManager → ℕ × ConnectionsManager
get_current_connection_index m =
    let i = add64 m.current_connection_index 1 in (i, record m { current_connection_index = i })

-- Destroy, after the thread has stopped.
unfoldable pub destroy : ConnectionsManager → ConnectionsManager
destroy m = record m { using_connections = [] }

unfoldable pub get_total_connections_number : ConnectionsManager → ℕ
get_total_connections_number m = length m.using_connections

-- A port has at most five decimal digits.
unfoldable pub proxy_address : Connection → String
proxy_address c = c.remote_ip ⊕ (":" ⊕ print_decimal 5 c.remote_port)

unfoldable pub push_released : ℕ → ConnectionsManager → ConnectionsManager
push_released a m = record m { released_connections = m.released_connections ++ a ∷ [] }

-- ReleaseConnection of a proxy connection, and of another.
unfoldable pub release_proxy : ℕ → ConnectionsManager → ConnectionsManager
release_proxy a m =
    let address = proxy_address (m.connection a) in
    elim (find address m.attach_proxy_connections_pool) [
      | none ↦ m
      | some cons ↦ elim (find (index a m) cons) [
        | none ↦ m
        | some b ↦ push_released a (record m {
          attach_proxy_connections_pool =
              insert address (erase (index a m) cons) m.attach_proxy_connections_pool;
        })
      ]
    ]

unfoldable pub release_using : ℕ → ConnectionsManager → ConnectionsManager
release_using a m = elim (find (index a m) m.using_connections) [
  | none ↦ m
  | some b ↦
      push_released a (record m { using_connections = erase (index a m) m.using_connections })
]

unfoldable pub release_connection : ℕ → ConnectionsManager → ConnectionsManager
release_connection a m =
    if (m.connection a).proxy_connection then release_proxy a m else release_using a m

-- The milliseconds that DetectTimeoutConnections counts from.
unfoldable pub begin_time : Connection → ℕ
begin_time c = if c.last_packet_time == 0 then c.accept_time else c.last_packet_time

-- Its test of one connection; the product of the DWORD wraps.
unfoldable pub is_timeout : ℕ → Connection → Bool
is_timeout now c =
    not (c.time_out_m_seconds == 4294967295)
    && (ltb (begin_time c) now && ltb ((c.time_out_m_seconds * 2) % 2 ^ 32) (now - begin_time c))

-- Its second loop, which calls m_pfOnClose on each connection of the queue.
unfoldable pub close_each :
    (ℕ → ConnectionsManager → ConnectionsManager) → List ℕ → ConnectionsManager → ConnectionsManager
close_each on_close [] m = m
close_each on_close (a ∷ rest) m = close_each on_close rest (on_close a m)

-- DetectTimeoutConnections
unfoldable pub detect_timeout_connections :
    Option (ℕ → ConnectionsManager → ConnectionsManager)
    → ℕ
    → ConnectionsManager
    → ConnectionsManager
detect_timeout_connections on_close now m = elim on_close [
  | none ↦ m
  | some f ↦
      close_each f (filter (λ a. is_timeout now (m.connection a)) (values m.using_connections)) m
]

-- The test of TravelReleaseList.
unfoldable pub is_released_long : ℕ → Connection → Bool
is_released_long now c = ltb c.released_time now && ltb 2000 (now - c.released_time)

-- The loop of TravelReleaseList over the rest of the list; `kept` is the part that it has left.
unfoldable pub travel : ℕ → List ℕ → List ℕ → ConnectionsManager → List ℕ × ConnectionsManager
travel now kept [] m = (kept, m)
travel now kept (a ∷ rest) m =
    let long = is_released_long now (m.connection a) in
    travel now (if long then kept else kept ++ a ∷ []) rest
      (if long then add_free_connection_obj a m else m)

unfoldable pub travel_release_list : ℕ → ConnectionsManager → ConnectionsManager
travel_release_list now m =
    let (kept, n) = travel now [] m.released_connections m in
    record n { released_connections = kept }

-- The loop of GetFreeProxyClient over the detached connections of an address: the last one taken, and
-- the list left, over the connections that m_pfOnClose closes.
unfoldable pub take_detached :
    (ℕ → ConnectionsManager → ConnectionsManager)
    → Option ℕ
    → List ℕ
    → ConnectionsManager
    → Option ℕ × List ℕ × ConnectionsManager
take_detached on_close last [] m = (last, [], m)
take_detached on_close last (a ∷ rest) m =
    let next = take_detached on_close (some a) rest (on_close a m) in
    elim (m.connection a).state [ ConnectionState.established ↦ (some a, rest, m) | _ ↦ next ]

-- Where no connection was taken: a new one that is being created. NULL where operator new throws.
unfoldable pub create_client : Bool → Option ℕ → ConnectionsManager → Option ℕ × ConnectionsManager
create_client succeeds (some a) m = (some a, m)
create_client false none m = (none, m)
create_client true none m = (
  some m.allocated,
  set_state ConnectionState.creating m.allocated (record m {
    connection = set_at m.connection m.allocated new_connection;
    allocated = suc m.allocated;
  }),
)

-- GetFreeProxyClient; without a callback `on_close` leaves the manager as it is.
unfoldable pub get_free_proxy_client :
    Bool
    → (ℕ → ConnectionsManager → ConnectionsManager)
    → String
    → ConnectionsManager
    → Option ℕ × ConnectionsManager
get_free_proxy_client succeeds on_close address m =
    elim (find address m.detached_proxy_connections_pool) [
      | none ↦ create_client succeeds none m
      | some cons ↦
          let (last, rest, n) = take_detached on_close none cons m in
          create_client succeeds last (record n {
            detached_proxy_connections_pool = insert address rest n.detached_proxy_connections_pool;
          })
    ]

-- AttachProxyConnection
unfoldable pub attach_proxy_connection : ℕ → ConnectionsManager → ConnectionsManager
attach_proxy_connection a m =
    let address = proxy_address (m.connection a) in
    let cons : List (ℕ × ℕ) = elim (find address m.attach_proxy_connections_pool) [
      | none ↦ []
      | some cs ↦ cs
    ] in
    record m {
      attach_proxy_connections_pool =
          insert address (insert_new (index a m) a cons) m.attach_proxy_connections_pool;
    }

-- DetachProxyConnection
unfoldable pub detach_proxy_connection : ℕ → ConnectionsManager → ConnectionsManager
detach_proxy_connection a m =
    let address = proxy_address (m.connection a) in
    let cons : List ℕ = elim (find address m.detached_proxy_connections_pool) [
      | none ↦ []
      | some cs ↦ cs
    ] in
    elim (find address m.attach_proxy_connections_pool) [
      | none ↦ m
      | some cs ↦ record m {
        attach_proxy_connections_pool = erase address m.attach_proxy_connections_pool;
        detached_proxy_connections_pool =
            insert address (cons ++ a ∷ []) m.detached_proxy_connections_pool;
      }
    ]

-- One round of DetectConnections, over what TravelTimeoutRequest of the object manager does.
unfoldable pub detect_connections :
    Option (ℕ → ConnectionsManager → ConnectionsManager)
    → (ConnectionsManager → ConnectionsManager)
    → ℕ
    → ConnectionsManager
    → ConnectionsManager
detect_connections on_close detect_request_timeout now m =
    detect_request_timeout (travel_release_list now (detect_timeout_connections on_close now m))
