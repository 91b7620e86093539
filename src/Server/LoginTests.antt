-- ===== src/Server/LoginTests.antt =====
-- Logins at concrete states.
use konsan_net.Prelude.{
  ◌≡◌, ◌++◌, refl, true, false, none, some, List, [], ◌∷◌, arith, ℕ, replicate, text_of,
}
use konsan_net.Server.Session.{ConnectionSession, new_session}
use konsan_net.Server.Sessions.{SessionsManager}
use konsan_net.Server.Login.{
  LoginMessage, LoginState, Judged, open_session, session_login, judge_login, connection_type,
}
use konsan_net.Server.Login.Main.{Opened, LoggedIn, session_login-LoggedIn}
use konsan_net.Server.Login.Further.{answer, session_login-answer}
use konsan_net.Server.Login.Refused.{Ends, session_login-Answers, judge_login_overrun}

-- The texts "g" and "00000042" with a type, as SessionLogin gets them; the length counts a zero.
abbrev message_of : ℕ → LoginMessage
message_of kind = record {
  data_len = 63;
  buf =
      (1 ∷ 0 ∷ 0 ∷ 0 ∷ 1 ∷ kind ∷ 0 ∷ 0 ∷ 11 ∷ 0 ∷ 0 ∷ 0 ∷ [])
      ++ ((b'g' ∷ 13 ∷ b'0' ∷ b'0' ∷ b'0' ∷ b'0' ∷ b'0' ∷ b'0' ∷ b'4' ∷ b'2' ∷ 0 ∷ [])
          ++ replicate 40 0);
}

-- One session that is free.
abbrev one_free : SessionsManager
one_free = record {
  using_sessions = [];
  free_sessions = 4 ∷ [];
  session = λ a. new_session;
  allocated = 5;
}

abbrev none_taken : SessionsManager
none_taken = record one_free { free_sessions = [] }

abbrev before : LoginState
before = record { session = none; manager = one_free }

session_login-LoggedIn_example :
    LoggedIn "g" 42 1000 77 4 (session_login true true true "g" 42 1000 77 (message_of 1) before)
unfolding konsan_net.Server.Login.user_data_len konsan_net.Packet.Header.get_dword
    konsan_net.Packet.Header.get_byte konsan_net.Server.Login.login_values
    konsan_net.Prelude.split_at konsan_net.Prelude.until_nul connection_type
    konsan_net.Server.Sessions.get_free_session konsan_net.Server.Sessions.take_session
    konsan_net.Server.Sessions.find_using_session konsan_net.Prelude.find
session_login-LoggedIn_example =
    session_login-LoggedIn true "g" 42 1000 77 4 (message_of 1) (b'g' ∷ [])
      (b'0' ∷ b'0' ∷ b'0' ∷ b'0' ∷ b'0' ∷ b'0' ∷ b'4' ∷ b'2' ∷ []) before none_taken
      (record {
        some_data = omega arith;
        fits = omega arith;
        bound = omega arith;
        room = omega arith;
        values = refl;
      })
      refl refl refl refl

-- The session of the main connection 77, and a further connection 78 over it.
abbrev after_main : LoginState
after_main = record { session = some 4; manager = open_session "g" 42 1000 77 4 none_taken }

abbrev second : LoginState
second = record { session = none; manager = after_main.manager }

after_main-Opened : Opened "g" 42 1000 77 4 after_main
unfolding konsan_net.Server.Sessions.find_using_session konsan_net.Prelude.find open_session
    konsan_net.Server.Sessions.add_using_session konsan_net.Server.Login.change_session
    konsan_net.Prelude.insert konsan_net.Server.Sessions.guid
    konsan_net.Server.Session.reset_verification_info konsan_net.Server.Session.add_main_connection
after_main-Opened = record {
  attached = refl;
  in_use = refl;
  main = refl;
  named = refl;
  code = refl;
  begin = refl;
  limit = refl;
}

abbrev the_code : List ℕ
the_code = b'0' ∷ b'0' ∷ b'0' ∷ b'0' ∷ b'0' ∷ b'0' ∷ b'4' ∷ b'2' ∷ []

session_login-answer_example :
    let j = answer (text_of the_code) 42 1000 1060 (connection_type (message_of 3)) 78 4 second in
    session_login true true true "h" 5 1060 78 (message_of 3) second ≡ some (j.code, j)
unfolding konsan_net.Server.Login.user_data_len konsan_net.Packet.Header.get_dword
    konsan_net.Packet.Header.get_byte konsan_net.Server.Login.login_values
    konsan_net.Prelude.split_at konsan_net.Prelude.until_nul connection_type text_of
    konsan_net.Prelude.byte_char
session_login-answer_example =
    session_login-answer true "g" "h" 42 1000 77 4 5 1060 78 (message_of 3) (b'g' ∷ []) the_code
      second after_main
      (record {
        some_data = omega arith;
        fits = omega arith;
        bound = omega arith;
        room = omega arith;
        values = refl;
      })
      refl (omega arith) after_main-Opened refl refl

session_login-Answers_example :
    Ends false true
      (message_of 3)
      second
      (session_login false true true "h" 5 1061 78 (message_of 3) second)
session_login-Answers_example =
    session_login-Answers false true true "h" 5 1061 78 (message_of 3) second

-- A message of 41 bytes after the guids with a login of the largest length.
abbrev largest : LoginMessage
largest = record {
  data_len = 41;
  buf = (1 ∷ 0 ∷ 0 ∷ 0 ∷ 1 ∷ 1 ∷ 0 ∷ 0 ∷ 29 ∷ 0 ∷ 0 ∷ 0 ∷ []) ++ replicate 29 65;
}

judge_login_overrun_example : judge_login true true "h" 5 1061 78 largest before ≡ none
unfolding konsan_net.Server.Login.user_data_len konsan_net.Packet.Header.get_dword
    konsan_net.Packet.Header.get_byte
judge_login_overrun_example =
    judge_login_overrun true "h" 5 1061 78 largest before refl (omega arith) (omega arith)
      (omega arith) refl
