-- ===== src/Server/Login/Main.antt =====
-- CXSessionLevelBase.cpp, SessionLogin of a main connection.
use konsan_net.Prelude.{
  ℕ, zero, suc, ◌+◌, ◌%◌, ◌^◌, ◌<◌, ◌≤◌, ◌≡◌, refl, sym, ap, ◌∙◌, Bool, true, Option, none, some,
  List, ◌∷◌, ◌++◌, length, ◌==◌, bytes_of, Bool-cases, inl, inr, arith, find, insert, find-insert,
  string_key, beq_refl,
}
use konsan_net.Chain.{set_at_self}
use konsan_net.Server.Digits.{print_padded}
use konsan_net.Server.Session.{ConnectionSession, add_main_connection, reset_verification_info}
use konsan_net.Server.Sessions.{
  SessionsManager, create_sessions, refill_sessions, take_session, get_free_session, guid,
  add_using_session, find_using_session,
}
use konsan_net.Server.Login.{
  LoginMessage, LoginState, Judged, judged, carriage_return, login_len, user_data_len,
  connection_type, login_values, change_session, open_session, session_text, text_reply,
  main_connection, login_values_of, first_login, judge_login, login_result, session_login,
}
use Prim.Native.String.{String}

create_sessions-using :
    (k : ℕ) (m : SessionsManager) → (create_sessions k m).using_sessions ≡ m.using_sessions
unfolding create_sessions
create_sessions-using zero m = refl
create_sessions-using (suc k) m = create_sessions-using k _

take_session-using : (m : SessionsManager) → (take_session m).1.using_sessions ≡ m.using_sessions
unfolding take_session
take_session-using m = ground arith

taken-using :
    (m n : SessionsManager) (a : Option ℕ)
    → take_session m ≡ (a, n)
    → n.using_sessions ≡ m.using_sessions
taken-using m n a same =
    sym (ap (λ (r : Option ℕ × SessionsManager). r.1.using_sessions) same) ∙ take_session-using m

-- A session that was free is taken, and none that is in use is changed.
get_free_session-using :
    (succeeds : Bool) (m n : SessionsManager) (a : Option ℕ)
    → get_free_session succeeds m ≡ some (a, n)
    → n.using_sessions ≡ m.using_sessions
unfolding refill_sessions get_free_session take_session
get_free_session-using succeeds m n a taken = elim (Bool-cases (length m.free_sessions == 0)) [
  | inr w ↦
      let found : get_free_session succeeds m ≡ some (take_session m) =
        rw (w, get_free_session) refl in
      taken-using m n a (let same : take_session m ≡ (a, n) = cc in same)
  | inl y ↦ elim (Bool-cases succeeds) [
    | inr w ↦ absurd (
        let no_memory : get_free_session succeeds m ≡ none =
          rw (y, w, refill_sessions, get_free_session) refl in
        cc)
    | inl z ↦
        let full = create_sessions 1000 m in
        let found : get_free_session succeeds m ≡ some (take_session full) =
          rw (y, z, refill_sessions, get_free_session) refl in
        taken-using full n a (let same : take_session full ≡ (a, n) = cc in same)
        ∙ create_sessions-using 1000 m
  ]
]

-- A session in use, as its main connection left it.
pub record Opened (g : String) (random now con a : ℕ) (s : LoginState) : Type 0 where
  pub attached : s.session ≡ some a
  pub in_use : find_using_session g s.manager ≡ some a
  pub main : (s.manager.session a).main_connection ≡ some con
  pub named : (s.manager.session a).session_guid ≡ g
  pub code : (s.manager.session a).verification_code ≡ print_padded 8 (random % 10000000)
  pub begin : (s.manager.session a).begin_of_verification ≡ now
  pub limit : (s.manager.session a).time_out_seconds_of_verification ≡ 60

-- A login that SessionLogin can read: its lengths agree, its terminator has room, and it has a '\r'.
pub record Readable (m : LoginMessage) (value1 value2 : List ℕ) : Type 0 where
  pub some_data : 0 < user_data_len m
  pub fits : login_len + user_data_len m ≤ m.data_len
  pub bound : m.data_len < 2 ^ 31
  pub room : login_len + user_data_len m < length m.buf
  pub values : login_values m ≡ some (value1, value2)

pub unattached {ℓ} :
    {A : Type ℓ} (x : Option ℕ) (f : A) (g : ℕ → A)
    → x ≡ none
    → elim x as (λ _. A) [ none ↦ f | some a ↦ g a ] ≡ f
unattached x f g e = rw e refl

-- Such a login gets as far as its texts.
pub judge_login-Readable :
    (succeeds : Bool) (g : String) (random now con : ℕ) (m : LoginMessage) (value1 value2 : List ℕ)
    (s : LoginState)
    → Readable m value1 value2
    → s.session ≡ none
    → judge_login true succeeds g random now con m s ≡ login_values_of succeeds g random now con m s
unfolding judge_login login_values_of first_login login_values
judge_login-Readable succeeds g random now con m value1 value2 s ok free = ground arith

-- A session with a name that is not in use is put in use.
add_new :
    (a : ℕ) (g : String) (m : SessionsManager)
    → guid a m ≡ g
    → find g m.using_sessions ≡ none
    → (add_using_session a m).1 ≡ record m { using_sessions = insert g a m.using_sessions }
unfolding add_using_session
add_new a g m named fresh = ground arith

-- The value that open_session gives a session.
abbrev opened_value : String → ℕ → ℕ → ℕ → ConnectionSession → ConnectionSession
opened_value g random now con s =
    reset_verification_info random now (record (add_main_connection con s) { session_guid = g })

module _ (g : String) (random now con a : ℕ) (m : SessionsManager)
    (fresh : find_using_session g m ≡ none) where
  abbrev changed : SessionsManager
  changed = change_session a (opened_value g random now con (m.session a)) m

  changed-session : changed.session a ≡ opened_value g random now con (m.session a)
  unfolding change_session
  changed-session = set_at_self m.session a _

  changed-guid : guid a changed ≡ g
  unfolding guid reset_verification_info
  changed-guid = ap (λ (s : ConnectionSession). s.session_guid) changed-session

  opened-manager :
      open_session g random now con a m
      ≡ record changed { using_sessions = insert g a m.using_sessions }
  unfolding open_session find_using_session change_session
  opened-manager = add_new a g changed changed-guid fresh

  open_session-Opened :
      Opened g random now con a
        (record { session = some a; manager = open_session g random now con a m })
  unfolding find_using_session reset_verification_info add_main_connection
  open_session-Opened =
      let value : (open_session g random now con a m).session a
          ≡ opened_value g random now con (m.session a) =
        ap (λ (n : SessionsManager). n.session a) opened-manager ∙ changed-session in
      record {
        attached = refl;
        in_use =
            ap (λ (n : SessionsManager). find g n.using_sessions) opened-manager
            ∙ find-insert g g a m.using_sessions
            ∙ rw (beq_refl g) refl;
        main = ap (λ (s : ConnectionSession). s.main_connection) value;
        named = ap (λ (s : ConnectionSession). s.session_guid) value;
        code = ap (λ (s : ConnectionSession). s.verification_code) value;
        begin = ap (λ (s : ConnectionSession). s.begin_of_verification) value;
        limit = ap (λ (s : ConnectionSession). s.time_out_seconds_of_verification) value;
      }

-- SessionLogin returned 0 with reply 200 and the session's guid and code.
pub record LoggedIn (g : String) (random now con a : ℕ) (r : Option (ℕ × Judged)) : Type 0 where
  pub end : Judged
  pub run : r ≡ some (0, end)
  pub reply_code : end.reply.reply_code ≡ 200
  pub text :
      end.reply.text ≡ bytes_of g ++ carriage_return ∷ bytes_of (print_padded 8 (random % 10000000))
  pub opened : Opened g random now con a end.state

-- SessionLogin of a main connection that has no session yet, with any two texts, of which neither is
-- compared with anything: where a session is to be had, the guid is not in use and the reply is sent, the
-- login succeeds. The session is then in use under the guid, with the connection as its main one and a new
-- code that is good for 60 seconds, and the reply has the guid and the code.
pub session_login-LoggedIn :
    (succeeds : Bool) (g : String) (random now con a : ℕ) (m : LoginMessage)
    (value1 value2 : List ℕ) (s : LoginState) (n : SessionsManager)
    → Readable m value1 value2
    → s.session ≡ none
    → connection_type m ≡ 1
    → get_free_session succeeds s.manager ≡ some (some a, n)
    → find_using_session g s.manager ≡ none
    → LoggedIn g random now con a (session_login true true succeeds g random now con m s)
unfolding find_using_session text_reply session_text main_connection login_values_of session_login
    login_result
session_login-LoggedIn succeeds g random now con a m value1 value2 s n ok free kind taken fresh =
    let unused : find_using_session g n ≡ none =
      ap (find g) (get_free_session-using succeeds s.manager n (some a) taken) ∙ fresh in
    let after = open_session g random now con a n in
    let opened = open_session-Opened g random now con a n unused in
    let is_main : (connection_type m == 1) ≡ true = ground arith in
    let end : Judged =
      judged 0 (text_reply 200 (session_text g after a))
        (record { session = some a; manager = after }) in
    let run : judge_login true succeeds g random now con m s ≡ some end =
      judge_login-Readable succeeds g random now con m value1 value2 s ok free
      ∙ rw (ok.values, is_main, taken, main_connection, login_values_of) refl in
    record {
      end = end;
      run = rw (run, session_login) refl;
      reply_code = refl;
      text = ap (λ c. bytes_of g ++ carriage_return ∷ bytes_of c) opened.code;
      opened = opened;
    }
