-- ===== src/Server/Sessions/Laws.antt =====
-- A session is found by its guid from when it is added until it is closed.
use konsan_net.Prelude.{
  ℕ, ◌≡◌, refl, sym, ap, ◌∙◌, some, if◌then◌else◌, find, find-insert, string_key, Option-cases,
  Bool-cases, inl, inr,
}
use Prim.Native.String.{String}
use konsan_net.Server.Session
use konsan_net.Server.Session.{ConnectionSession}
use konsan_net.Server.Sessions.{SessionsManager, guid, add_using_session, find_using_session}

-- AddUsingSession makes exactly its session found under its guid, if no session has that guid, and
-- changes nothing otherwise.
pub add_using_session-find :
    (a : ℕ) (g : String) (m : SessionsManager)
    → find_using_session g (add_using_session a m).1 ≡ (
        if string_key.beq (guid a m) g
        then (if (add_using_session a m).0 then some a else find_using_session (guid a m) m)
        else find_using_session g m)
unfolding find_using_session add_using_session
add_using_session-find a g m = elim (Option-cases (find (guid a m) m.using_sessions)) [
  | inl e ↦ rw (e, add_using_session) (find-insert (guid a m) g a m.using_sessions)
  | inr (b, e) ↦
      rw (e, add_using_session)
        (elim (Bool-cases (string_key.beq (guid a m) g)) [
          | inl q ↦
              rw q (
                ap (λ x. find x m.using_sessions) (sym ((string_key.beq_iff (guid a m) g).0 q)) ∙ e)
          | inr q ↦ rw q refl
        ])
]
