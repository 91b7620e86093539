-- ===== src/Server/Login/Refused.antt =====
-- CXSessionLevelBase.cpp, SessionLogin: the logins that it refuses.
use konsan_net.Prelude.{
  ◌≤◌, [], if◌then◌else◌, ==_iff, ℕ, ◌+◌, ◌<◌, ◌≡◌, ◌⊎◌, refl, ◌∙◌, ◌^◌, Bool, true, false, ◌||◌,
  Option, none, some, List, length, ltb, leb, ◌==◌, sub64, text_of, Bool-cases, Option-cases, inl,
  inr, arith,
}
use konsan_net.Server.Session.{Verification, verify_code}
use konsan_net.Server.Sessions.{find_using_session, get_free_session, refill_sessions}
use konsan_net.Server.Login.{
  LoginMessage, LoginState, Judged, judged, login_len, plain_reply, error_reply, text_reply,
  user_data_len, connection_type, login_values, attach_session, verified, further_connection,
  main_connection, login_values_of, first_login, judge_login, login_result, session_login,
}
use konsan_net.Server.Login.Main.{unattached}
use Prim.Native.String.{String}

-- 200 is replied with the code 0; with another code another reply, and, but for 207, the state is the same.
pub Answers : LoginState → Judged → Type 0
Answers s j =
    ((j.code ≡ 0) × (j.reply.reply_code ≡ 200))
    ⊎ ((0 < j.code) × (200 < j.reply.reply_code) × ((j.reply.reply_code ≡ 207) ⊎ (j.state ≡ s)))

-- Where a login is a fault: its terminator does not fit the message's memory, or it is a main connection
-- for which no session is left and operator new throws.
pub Faulty : Bool → LoginMessage → LoginState → Type 0
Faulty succeeds m s =
    (length m.buf ≤ login_len + user_data_len m)
    ⊎ ((connection_type m ≡ 1) × ((succeeds ≡ false) × (s.manager.free_sessions ≡ [])))

AnswersIf : Bool → LoginMessage → LoginState → Option Judged → Type 0
AnswersIf succeeds m s none = Faulty succeeds m s
AnswersIf succeeds m s (some j) = Answers s j

-- The end of SessionLogin: with the result's code where the reply is sent, with -2 where it is not.
pub Ends : Bool → Bool → LoginMessage → LoginState → Option (ℕ × Judged) → Type 0
Ends is_sent succeeds m s none = Faulty succeeds m s
Ends is_sent succeeds m s (some (e, j)) = (e ≡ (if is_sent then j.code else 2)) × Answers s j

verified-Answers :
    (v : Verification) (kind con a : ℕ) (s : LoginState) → Answers s (verified v kind con a s)
unfolding verified attach_session plain_reply Answers
verified-Answers Verification.succeed kind con a s = inl (refl, refl)
verified-Answers Verification.not_match kind con a s = inr (omega arith, omega arith, inr refl)
verified-Answers Verification.time_out kind con a s = inr (omega arith, omega arith, inr refl)

further_connection-Answers :
    (guid code : List ℕ) (now kind con : ℕ) (s : LoginState)
    → Answers s (further_connection guid code now kind con s)
unfolding further_connection plain_reply Answers
further_connection-Answers guid code now kind con s =
    go (find_using_session (text_of guid) s.manager)
  where
    go :
        (f : Option ℕ)
        → Answers s (elim f as (λ _. Judged) [
          | none ↦ judged 2 (plain_reply 204) s
          | some a ↦ verified (verify_code (text_of code) now (s.manager.session a)) kind con a s
        ])
    go none = inr (omega arith, omega arith, inr refl)
    go (some a) =
        verified-Answers (verify_code (text_of code) now (s.manager.session a)) kind con a s

main_connection-Answers :
    (succeeds : Bool) (guid : String) (random now con : ℕ) (m : LoginMessage) (s : LoginState)
    → connection_type m ≡ 1
    → AnswersIf succeeds m s (main_connection succeeds guid random now con s)
unfolding plain_reply text_reply Answers AnswersIf Faulty main_connection get_free_session
    refill_sessions
main_connection-Answers succeeds guid random now con m s kind = ground arith

login_values_of-Answers :
    (succeeds : Bool) (guid : String) (random now con : ℕ) (m : LoginMessage) (s : LoginState)
    → AnswersIf succeeds m s (login_values_of succeeds guid random now con m s)
unfolding error_reply Answers AnswersIf login_values_of
login_values_of-Answers succeeds guid random now con m s = elim (Option-cases (login_values m)) [
  | inl e ↦ rw (e, login_values_of) (inr (omega arith, omega arith, inr refl))
  | inr ((v1, v2), e) ↦ elim (Bool-cases (connection_type m == 1)) [
    | inl y ↦
        rw (e, y, login_values_of)
          (main_connection-Answers succeeds guid random now con m s
            ((==_iff (connection_type m) 1).0 y))
    | inr w ↦
        rw (e, w, login_values_of) (further_connection-Answers v1 v2 now (connection_type m) con s)
  ]
]

first_login-Answers :
    (succeeds : Bool) (guid : String) (random now con : ℕ) (m : LoginMessage) (s : LoginState)
    → AnswersIf succeeds m s (first_login succeeds guid random now con m s)
unfolding error_reply Answers AnswersIf Faulty first_login
first_login-Answers succeeds guid random now con m s =
    elim (Bool-cases (ltb (sub64 m.data_len login_len) (user_data_len m))) [
      | inl y ↦ rw (y, first_login) (inr (omega arith, omega arith, inr refl))
      | inr w ↦ elim (Bool-cases (leb (length m.buf) (login_len + user_data_len m))) [
        | inl y ↦ rw (w, y, first_login) (inl (ground arith))
        | inr u ↦ rw (w, u, first_login) (login_values_of-Answers succeeds guid random now con m s)
      ]
    ]

judge_login-Answers :
    (has_manager succeeds : Bool) (guid : String) (random now con : ℕ) (m : LoginMessage)
    (s : LoginState)
    → AnswersIf succeeds m s (judge_login has_manager succeeds guid random now con m s)
unfolding plain_reply Answers AnswersIf judge_login
judge_login-Answers has_manager succeeds guid random now con m s =
    elim (Bool-cases (user_data_len m == 0 || leb m.data_len (user_data_len m))) [
      | inl y ↦ rw (y, judge_login) (inr (omega arith, omega arith, inr refl))
      | inr w ↦ elim (Bool-cases has_manager) [
        | inr u ↦ rw (w, u, judge_login) (inr (omega arith, omega arith, inr refl))
        | inl y ↦ rw (w, y, judge_login) (go s.session)
      ]
    ]
  where
    go :
        (x : Option ℕ)
        → AnswersIf succeeds m s (elim x as (λ _. Option Judged) [
          | none ↦ first_login succeeds guid random now con m s
          | some a ↦ some (judged 4 (plain_reply 205) s)
        ])
    go none = first_login-Answers succeeds guid random now con m s
    go (some a) = inr (omega arith, omega arith, inr refl)

-- Whatever the message, and unless it is a fault, which it is only where the zero behind the user's data is
-- written past the message's memory or where operator new throws for a main connection: the login either is
-- judged with 0 and 200 is replied, or with another code and another reply, and then, unless no session was
-- to be had, the connection's session and the sessions manager are as they were. SessionLogin returns that
-- code where the reply is sent, and -2 where it is not, with the state as it was judged.
pub session_login-Answers :
    (is_sent has_manager succeeds : Bool) (guid : String) (random now con : ℕ) (m : LoginMessage)
    (s : LoginState)
    → Ends is_sent succeeds m s (session_login is_sent has_manager succeeds guid random now con m s)
unfolding Ends AnswersIf session_login login_result
session_login-Answers is_sent has_manager succeeds guid random now con m s =
    go (judge_login has_manager succeeds guid random now con m s)
      (judge_login-Answers has_manager succeeds guid random now con m s)
  where
    go :
        (x : Option Judged)
        → AnswersIf succeeds m s x
        → Ends is_sent succeeds m s (elim x as (λ _. Option (ℕ × Judged)) [
          | none ↦ none
          | some j ↦ some (login_result is_sent j, j)
        ])
    go none h = h
    go (some j) h = (ground arith, h)

-- SessionLogin of a login whose length field is the largest that it allows, 12 less than dwDataLen, is a
-- fault where the message's memory has no more bytes than the code asked for: the zero behind the user's
-- data is written past its end.
pub judge_login_overrun :
    (succeeds : Bool) (guid : String) (random now con : ℕ) (m : LoginMessage) (s : LoginState)
    → s.session ≡ none
    → 0 < user_data_len m
    → login_len + user_data_len m ≡ m.data_len
    → m.data_len < 2 ^ 31
    → length m.buf ≡ m.data_len
    → judge_login true succeeds guid random now con m s ≡ none
unfolding judge_login first_login
judge_login_overrun succeeds guid random now con m s free some_data largest bound memory =
    let a : (user_data_len m == 0 || leb m.data_len (user_data_len m)) ≡ false = ground arith in
    let b : ltb (sub64 m.data_len login_len) (user_data_len m) ≡ false = ground arith in
    let d : leb (length m.buf) (login_len + user_data_len m) ≡ true = ground arith in
    rw (a, judge_login) (unattached s.session _ _ free ∙ rw (b, d, first_login) refl)
