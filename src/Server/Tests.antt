-- ===== src/Server/Tests.antt =====
-- CXCommunicationServer at concrete states: the theorems at inputs that meet their hypotheses.
use konsan_net.Prelude.{
  filter, ◌+◌, ◌≡◌, refl, true, false, none, some, [], ◌∷◌, if◌then◌else◌, find, ◌==◌, string_key,
  nat_key,
}
use konsan_net.Chain.{set_at}
use konsan_net.Server.Connections.{
  ConnectionState, ConnectionsManager, new_connection, new_connections_manager,
  add_using_connection, release_connection, travel_release_list, proxy_address, take_free,
  take_first, refill, create_connections, set_state, detach_proxy_connection,
  get_free_connection_obj, index,
}
use konsan_net.Server.Connections.Lifecycle.{steps-Conserved}
use konsan_net.Server.Connections.Calls.{Step, Steps, Conserved}
use konsan_net.Server.Connections.Release.{is_due, travel_release_list-Waited}
use konsan_net.Server.Connections.Proxy.{detach_proxy_connection_strands}

-- Connection 0 is free, 1 is in use under index 7, 2 was released at 1000.
abbrev three_connections : ConnectionsManager
three_connections = record new_connections_manager {
  free_connections = 0 ∷ [];
  using_connections = (7, 1) ∷ [];
  released_connections = 2 ∷ [];
  connection = λ a. record new_connection {
    connection_index = if a == 1 then 7 else 0;
    released_time = if a == 2 then 1000 else 0;
  };
  allocated = 3;
}

travel_release_list-Waited_example :
    let r = travel_release_list 3001 three_connections in
    (r.released_connections ≡ [])
    × (r.free_connections ≡ 0 ∷ 2 ∷ [])
    × (r.connection ≡ three_connections.connection)
    × (r.using_connections ≡ (7, 1) ∷ [])
unfolding filter is_due
travel_release_list-Waited_example = travel_release_list-Waited 3001 three_connections

abbrev started : ConnectionsManager
started = elim (get_free_connection_obj true new_connections_manager) [
  | none ↦ new_connections_manager
  | some (a, n) ↦ n
]

started_lem : get_free_connection_obj true new_connections_manager ≡ some (0, started)
unfolding get_free_connection_obj new_connections_manager take_free take_first refill
    create_connections set_state
started_lem = refl

-- Connection 0 gets index 7, is used, and released.
abbrev built : ConnectionsManager
built = record started {
  connection = set_at started.connection 0 (record new_connection { connection_index = 7 });
}

abbrev used : ConnectionsManager
used = add_using_connection 0 built

abbrev started-Steps : Steps [] new_connections_manager (0 ∷ []) started
started-Steps =
    Steps.step [] [] (0 ∷ []) new_connections_manager new_connections_manager started
      (Steps.start [] new_connections_manager)
      (Step.get_free [] new_connections_manager started true 0 started_lem)

built-index : index 0 built ≡ 7
unfolding index
built-index = refl

built_own : (built.connection 0).proxy_connection ≡ false
unfolding new_connection
built_own = refl

nothing_used : find 7 built.using_connections ≡ none
unfolding get_free_connection_obj new_connections_manager take_free take_first refill
    create_connections set_state find
nothing_used = refl

used-Steps : Steps [] new_connections_manager [] used
used-Steps =
    Steps.step [] (0 ∷ []) [] new_connections_manager built used
      (Steps.step [] (0 ∷ []) (0 ∷ []) new_connections_manager started built started-Steps
        (Step.build (0 ∷ []) started 0 (record new_connection { connection_index = 7 })))
      (Step.add_using [] [] built 0 built_own (rw built-index nothing_used))

steps-Conserved_example : Conserved [] used
steps-Conserved_example = steps-Conserved [] used used-Steps

-- A second client's connection, beside the one in use.
abbrev again : ConnectionsManager
again = elim (get_free_connection_obj true used) [ none ↦ used | some (a, n) ↦ n ]

-- Proxies 1 and 2 of one address; 2 is established.
abbrev proxies : ConnectionsManager
proxies = record new_connections_manager {
  detached_proxy_connections_pool = ("10.0.0.1:80", 1 ∷ 2 ∷ []) ∷ [];
  attach_proxy_connections_pool = ("10.0.0.1:80", (5, 1) ∷ (6, 2) ∷ []) ∷ [];
  connection = λ a. record new_connection {
    connection_index = 4 + a;
    remote_ip = "10.0.0.1";
    remote_port = 80;
    proxy_connection = true;
    state = if a == 2 then ConnectionState.established else ConnectionState.closed;
  };
}

detach_proxy_connection_strands_example :
    release_connection 2 (detach_proxy_connection 1 proxies) ≡ detach_proxy_connection 1 proxies
unfolding proxy_address new_connections_manager new_connection
detach_proxy_connection_strands_example =
    detach_proxy_connection_strands 1 2 proxies refl refl (tt, tt)
