-- ===== src/Server/Connections/Calls.antt =====
-- CXCommunicationServer.cpp: the calls of CXConnectionsManager that a server without proxy connections makes,
-- and the places of a connection object. GetProxyConnection, OnProxyConnectionCreated and
-- DetachProxyConnection are not among them.
use konsan_net.Prelude.{
  ℕ, ◌+◌, ◌≡◌, Bool, false, none, some, List, ◌∷◌, ◌++◌, ltb, if◌then◌else◌, find, values, count,
  nat_key,
}
use konsan_net.Chain.{set_at}
use konsan_net.Server.Connections.{
  Connection, ConnectionsManager, index, get_free_connection_obj, add_free_connection_obj,
  add_using_connection, release_connection, travel_release_list,
}

-- How often `a` is held by a client, free, released, or in use.
abbrev pub places : ℕ → List ℕ → ConnectionsManager → ℕ
places a held m =
    count a held
    + (count a m.free_connections
        + (count a m.released_connections + count a (values m.using_connections)))

-- Every object that was allocated is in one place, and no other is in any.
abbrev pub Conserved : List ℕ → ConnectionsManager → Type 0
Conserved held m = (a : ℕ) → places a held m ≡ (if ltb a m.allocated then 1 else 0)

-- One call, with the objects that clients hold before and after it.
pub data Step : List ℕ → ConnectionsManager → List ℕ → ConnectionsManager → Type 0 where
  -- GetFreeConnectionObj
  get_free :
      (held : List ℕ) (m n : ConnectionsManager) (succeeds : Bool) (a : ℕ)
      → get_free_connection_obj succeeds m ≡ some (a, n)
      → Step held m (a ∷ held) n
  -- Build and the setters of a connection that a client holds.
  build :
      (held : List ℕ) (m : ConnectionsManager) (a : ℕ) (c : Connection)
      → Step held m held (record m { connection = set_at m.connection a c })
  -- AddFreeConnectionObj, where the connection could not be made.
  add_free :
      (before after : List ℕ) (m : ConnectionsManager) (a : ℕ)
      → Step (before ++ a ∷ after) m (before ++ after) (add_free_connection_obj a m)
  -- AddUsingConnection under a new index.
  add_using :
      (before after : List ℕ) (m : ConnectionsManager) (a : ℕ)
      → (m.connection a).proxy_connection ≡ false
      → find (index a m) m.using_connections ≡ none
      → Step (before ++ a ∷ after) m (before ++ after) (add_using_connection a m)
  -- ReleaseConnection of a connection whose index is its own, also when it was released before.
  release :
      (held : List ℕ) (m : ConnectionsManager) (a : ℕ)
      → (m.connection a).proxy_connection ≡ false
      → ((b : ℕ) → find (index a m) m.using_connections ≡ some b → b ≡ a)
      → Step held m held (release_connection a m)
  -- TravelReleaseList
  travelled :
      (held : List ℕ) (m : ConnectionsManager) (now : ℕ)
      → Step held m held (travel_release_list now m)

pub data Steps : List ℕ → ConnectionsManager → List ℕ → ConnectionsManager → Type 0 where
  start : (held : List ℕ) (m : ConnectionsManager) → Steps held m held m
  step :
      (held mid end : List ℕ) (m n r : ConnectionsManager)
      → Steps held m mid n
      → Step mid n end r
      → Steps held m end r
