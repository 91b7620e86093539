-- ===== src/Server/Sessions.antt =====
-- CXCommunicationServer/src/CXSessionsManager.cpp. Sessions are pointers, as numbers, to records;
-- `allocated` is the first address that was not handed out. The guid that BuildSessionGuid makes is the
-- operating system's, and an argument where a session is given one. GetFreeSession is none where
-- operator new throws.
pub mod Laws
use konsan_net.Prelude.{
  ℕ, zero, suc, Bool, true, false, Option, none, some, List, [], ◌∷◌, ◌++◌, length, ◌==◌,
  if◌then◌else◌, find, insert, erase, string_key,
}
use konsan_net.Chain.{set_at}
use konsan_net.Server.Session
use konsan_net.Server.Session.{ConnectionSession, new_session}
use Prim.Native.String.{String}

pub record SessionsManager : Type 0 where
  pub using_sessions : List (String × ℕ)
  pub free_sessions : List ℕ
  pub session : ℕ → ConnectionSession
  pub allocated : ℕ

unfoldable pub new_sessions_manager : SessionsManager
new_sessions_manager = record {
  using_sessions = [];
  free_sessions = [];
  session = λ _. new_session;
  allocated = 0;
}

-- The loop of GetFreeSession: new sessions, put at the end of the free queue.
unfoldable pub create_sessions : ℕ → SessionsManager → SessionsManager
create_sessions zero m = m
create_sessions (suc k) m = create_sessions k (record m {
  free_sessions = m.free_sessions ++ m.allocated ∷ [];
  session = set_at m.session m.allocated new_session;
  allocated = suc m.allocated;
})

unfoldable pub refill_sessions : Bool → SessionsManager → Option SessionsManager
refill_sessions false m = none
refill_sessions true m = some (create_sessions 1000 m)

-- GetFreeSession: NULL where the queue is empty, which it is not here.
unfoldable pub take_session : SessionsManager → Option ℕ × SessionsManager
take_session m = elim m.free_sessions [
  | [] ↦ (none, m)
  | a ∷ rest ↦ (some a, record m { free_sessions = rest })
]

unfoldable pub get_free_session : Bool → SessionsManager → Option (Option ℕ × SessionsManager)
get_free_session succeeds m =
    let filled = if length m.free_sessions == 0 then refill_sessions succeeds m else some m in
    elim filled [ none ↦ none | some n ↦ some (take_session n) ]

unfoldable pub guid : ℕ → SessionsManager → String
guid a m = (m.session a).session_guid

-- CXConnectionSession::SetSesssionGuid
unfoldable pub set_session_guid : String → ℕ → SessionsManager → SessionsManager
set_session_guid g a m =
    let s : ConnectionSession = record (m.session a) { session_guid = g } in
    record m { session = set_at m.session a s }

-- AddUsingSession: false is the result -1.
unfoldable pub add_using_session : ℕ → SessionsManager → Bool × SessionsManager
add_using_session a m = elim (find (guid a m) m.using_sessions) [
  | some b ↦ (false, m)
  | none ↦ (true, record m { using_sessions = insert (guid a m) a m.using_sessions })
]

-- What CloseSession does to a session in use.
unfoldable pub recycle_session : ℕ → SessionsManager → (List ℕ × List ℕ) × SessionsManager
recycle_session a m =
    let (objects, s) = Session.destroy (m.session a) in
    (
      objects,
      record m {
        using_sessions = erase (guid a m) m.using_sessions;
        session = set_at m.session a s;
        free_sessions = m.free_sessions ++ a ∷ [];
      },
    )

-- CloseSession, with the objects that Destroy destroys and those that it gives back.
unfoldable pub close_session : ℕ → SessionsManager → (List ℕ × List ℕ) × SessionsManager
close_session a m = elim (find (guid a m) m.using_sessions) [
  | none ↦ (([], []), m)
  | some b ↦ recycle_session a m
]

-- FindUsingSession
unfoldable pub find_using_session : String → SessionsManager → Option ℕ
find_using_session g m = find g m.using_sessions

-- Destroy
unfoldable pub destroy : SessionsManager → SessionsManager
destroy m = record m { using_sessions = []; free_sessions = [] }
