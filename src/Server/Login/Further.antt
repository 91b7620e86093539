-- ===== src/Server/Login/Further.antt =====
-- CXSessionLevelBase.cpp, SessionLogin of a further connection of a session, and the logins that it refuses.
use konsan_net.Prelude.{
  ℕ, ◌+◌, ◌-◌, ◌%◌, ◌≡◌, ◌≢◌, refl, ap, ◌∙◌, Bool, true, false, none, some, List, [], ◌∷◌, ◌++◌,
  ltb, leb, ◌==◌, if◌then◌else◌, text_of, Bool-cases, inl, inr, arith, string_key,
}
use konsan_net.Chain.{set_at}
use konsan_net.Server.Digits.{print_padded}
use konsan_net.Server.Session.{ConnectionSession, Verification, verify_code}
use konsan_net.Server.Sessions.{SessionsManager, find_using_session}
use konsan_net.Server.Login.{
  LoginReply, LoginMessage, LoginState, Judged, judged, plain_reply, connection_type,
  attach_session, verified, further_connection, login_values_of, judge_login, login_result,
  session_login,
}
use konsan_net.Server.Login.Main.{Opened, Readable, judge_login-Readable}
use Prim.Native.String.{String}

-- The reply with a code and no text.
abbrev reply_of : ℕ → LoginReply
reply_of code = record { reply_code = code; text = []; data_len = 0; send_len = 17 }

-- The session that a connection joined: listed behind the messages' connections, the data's, or nowhere.
unfoldable pub joined : ℕ → ℕ → ConnectionSession → ConnectionSession
joined kind con v =
    if kind == 2
    then record v { message_connections = v.message_connections ++ con ∷ [] }
    else if kind == 3
    then record v { data_connections = v.data_connections ++ con ∷ [] }
    else v

-- What SessionLogin answers where the session `a` was opened at `begin` with the code of `random`.
unfoldable pub answer : String → ℕ → ℕ → ℕ → ℕ → ℕ → ℕ → LoginState → Judged
answer code random begin now kind con a s =
    if string_key.beq code (print_padded 8 (random % 10000000))
    then (if leb now (begin + 60)
        then record {
          code = 0;
          reply = reply_of 200;
          state = record {
            session = some a;
            manager = record s.manager {
              session = set_at s.manager.session a (joined kind con (s.manager.session a));
            };
          };
        }
        else record { code = 6; reply = reply_of 206; state = s })
    else record { code = 6; reply = reply_of 205; state = s }

verify_code-opened :
    (code : String) (random begin now : ℕ) (v : ConnectionSession)
    → v.verification_code ≡ print_padded 8 (random % 10000000)
    → v.begin_of_verification ≡ begin
    → v.time_out_seconds_of_verification ≡ 60
    → verify_code code now v ≡ (
        if string_key.beq code (print_padded 8 (random % 10000000))
        then (if leb now (begin + 60) then Verification.succeed else Verification.time_out)
        else Verification.not_match)
unfolding verify_code
verify_code-opened code random begin now v same start limit =
    let late : ltb v.time_out_seconds_of_verification (now - v.begin_of_verification)
        ≡ (if leb now (begin + 60) then false else true) =
      ground arith in
    rw (same, late) (ground arith)

verified-answer :
    (code : String) (random begin now kind con a : ℕ) (s : LoginState)
    → (s.manager.session a).verification_code ≡ print_padded 8 (random % 10000000)
    → (s.manager.session a).begin_of_verification ≡ begin
    → (s.manager.session a).time_out_seconds_of_verification ≡ 60
    → verified (verify_code code now (s.manager.session a)) kind con a s
      ≡ answer code random begin now kind con a s
unfolding answer verified joined attach_session plain_reply konsan_net.Server.Login.change_session
    konsan_net.Server.Login.add_to_session konsan_net.Server.Session.add_message_connection
    konsan_net.Server.Session.add_data_connection
verified-answer code random begin now kind con a s same start limit =
    ap (λ v. verified v kind con a s)
      (verify_code-opened code random begin now (s.manager.session a) same start limit)
    ∙ elim (Bool-cases (string_key.beq code (print_padded 8 (random % 10000000)))) [
      | inr w ↦ rw w refl
      | inl y ↦ elim (Bool-cases (leb now (begin + 60))) [
        | inl z ↦ rw (y, z) refl
        | inr u ↦ rw (y, u) refl
      ]
    ]

-- None of these answers closes the connection.
answer-result :
    (code : String) (random begin now kind con a : ℕ) (s : LoginState)
    → login_result true (answer code random begin now kind con a s)
      ≡ (answer code random begin now kind con a s).code
unfolding answer login_result attach_session
answer-result code random begin now kind con a s = ground arith

-- SessionLogin of a further connection that has no session yet, with the guid of a session that a main
-- connection opened over the same manager, where the reply is sent: with the session's code, up to 60 seconds
-- later, the connection gets the session, is listed behind the session's messages' connections with type 2,
-- behind its data's with type 3 and nowhere with another type, 200 is replied and the result is 0. Later 206
-- is replied, with another code 205, the result is -6, and then nothing changes.
pub session_login-answer :
    (succeeds : Bool) (g h : String) (random begin main a other now con : ℕ) (m : LoginMessage)
    (value1 value2 : List ℕ) (s t : LoginState)
    → Readable m value1 value2
    → s.session ≡ none
    → connection_type m ≢ 1
    → Opened g random begin main a t
    → s.manager ≡ t.manager
    → text_of value1 ≡ g
    → let j = answer (text_of value2) random begin now (connection_type m) con a s in
      session_login true true succeeds h other now con m s ≡ some (j.code, j)
unfolding further_connection login_values_of answer session_login text_of
session_login-answer succeeds g h random begin main a other now con m value1 value2 s t ok free kind
      opened same named =
    let j = answer (text_of value2) random begin now (connection_type m) con a s in
    let not_main : (connection_type m == 1) ≡ false = ground arith in
    let found : find_using_session (text_of value1) s.manager ≡ some a =
      ap (λ k. find_using_session k s.manager) named
      ∙ ap (find_using_session g) same
      ∙ opened.in_use in
    let value : s.manager.session a ≡ t.manager.session a =
      ap (λ (n : SessionsManager). n.session a) same in
    let answered =
      verified-answer (text_of value2) random begin now (connection_type m) con a s
        (ap (λ (v : ConnectionSession). v.verification_code) value ∙ opened.code)
        (ap (λ (v : ConnectionSession). v.begin_of_verification) value ∙ opened.begin)
        (ap (λ (v : ConnectionSession). v.time_out_seconds_of_verification) value ∙ opened.limit) in
    let run : judge_login true succeeds h other now con m s ≡ some j =
      judge_login-Readable succeeds h other now con m value1 value2 s ok free
      ∙ rw (ok.values, not_main, found, further_connection, login_values_of) (ap some answered) in
    rw (run, session_login)
      (ap (λ e. some (e, j))
        (answer-result (text_of value2) random begin now (connection_type m) con a s))
