-- ===== src/Server/Connections/Lifecycle.antt =====
-- The places of a connection object: with a client that took it from the free queue, in the free
-- queue, in use, or released. The steps are the calls of the server; a proxy connection is not used by
-- them.
use konsan_net.Prelude.{ℕ, ◌≡◌, subst, Bool, some, List, [], arith, values, count, nat_key}
use konsan_net.Server.Connections.{
  ConnectionsManager, get_free_connection_obj, new_connections_manager,
}
use konsan_net.Server.Connections.Calls.{Conserved, Step, Steps}
use konsan_net.Server.Connections.Conserving.{
  Granted, get_free-Granted, add_free-Conserved, add_using-Conserved, release_using-Conserved,
  release_connection-using, travel_release_list-Conserved,
}

-- Each call of the server conserves the connection objects: what a client is given was free, and
-- what is freed was held, in use, or released, by no one else.
pub Step-Conserved :
    (held end : List ℕ) (m n : ConnectionsManager)
    → Step held m end n
    → Conserved held m
    → Conserved end n
Step-Conserved _ _ _ _ (Step.get_free held m n succeeds a e) h =
    subst (Granted held) e (get_free-Granted held succeeds m h)
Step-Conserved _ _ _ _ (Step.build held m a c) h = h
Step-Conserved _ _ _ _ (Step.add_free before after m a) h = add_free-Conserved before after m a h
Step-Conserved _ _ _ _ (Step.add_using before after m a p f) h =
    add_using-Conserved before after m a p f h
Step-Conserved _ _ _ _ (Step.release held m a p own) h =
    subst (Conserved held) (release_connection-using m a p) (release_using-Conserved held m a own h)
Step-Conserved _ _ _ _ (Step.travelled held m now) h = travel_release_list-Conserved held m now h

steps-Conserved_from :
    (held end : List ℕ) (m n : ConnectionsManager)
    → Steps held m end n
    → Conserved held m
    → Conserved end n
steps-Conserved_from _ _ _ _ (Steps.start held m) h = h
steps-Conserved_from _ _ _ _ (Steps.step held mid end m n r before last) h =
    Step-Conserved mid end n r last (steps-Conserved_from held mid m n before h)

-- Where a server makes no proxy connections: from the start on, whatever the calls of GetFreeConnectionObj,
-- AddFreeConnectionObj, AddUsingConnection under a new index, ReleaseConnection and TravelReleaseList, every
-- connection object that was allocated is in one place: with one caller, free, in use, or released.
pub steps-Conserved :
    (held : List ℕ) (n : ConnectionsManager)
    → Steps [] new_connections_manager held n
    → Conserved held n
unfolding new_connections_manager
steps-Conserved held n s =
    steps-Conserved_from [] held new_connections_manager n s (λ a. ground arith)

-- So no client is given an object that a client holds already, or that is in use or released: it is held
-- once.
pub get_free_connection_obj-apart :
    (held : List ℕ) (m n : ConnectionsManager) (succeeds : Bool) (a : ℕ)
    → Steps [] new_connections_manager held m
    → get_free_connection_obj succeeds m ≡ some (a, n)
    → (count a held ≡ 0)
      × ((count a n.released_connections ≡ 0) × (count a (values n.using_connections) ≡ 0))
get_free_connection_obj-apart held m n succeeds a s e =
    let h =
      subst (Granted held) e (get_free-Granted held succeeds m (steps-Conserved held m s)) a in
    ground (arith, h)
