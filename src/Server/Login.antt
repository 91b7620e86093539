-- ===== src/Server/Login.antt =====
-- CXCommunicationServer/src/CXSessionLevelBase.cpp: SessionLogin, the login of a connection, and DispatchMes.
-- The guid is BuildSessionGuid's, `random` and `now` are rand() and time(NULL), `succeeds` says that operator
-- new does, and `is_sent` what SendPacket of the reply returns. Results are without their sign.
pub mod Main
pub mod Further
pub mod Refused
use konsan_net.Prelude.{
  ℕ, ◌+◌, ◌-◌, ◌%◌, ◌^◌, Bool, true, false, not, ◌||◌, Option, none, some, List, [], ◌∷◌, ◌++◌,
  length, take, drop, ltb, leb, ◌==◌, if◌then◌else◌, sub32, sub64, text_of, bytes_of, until_nul,
  split_at,
}
use konsan_net.Chain.{set_at}
use konsan_net.Packet.Header.{get_byte, get_dword}
use konsan_net.Server.Digits.{print_decimal}
use konsan_net.Server.Session
use konsan_net.Server.Session.{ConnectionSession, Verification}
use konsan_net.Server.Sessions.{
  SessionsManager, get_free_session, set_session_guid, add_using_session, find_using_session,
}
use Prim.Native.String.{String}

-- dwDataLen counts the body with its guids and codes, 40 bytes; `buf` are the bytes from bodyData.buf to the
-- end of the message's memory, as many as dwDataLen. Lengths are below 2^31.
pub record LoginMessage : Type 0 where
  pub data_len : ℕ
  pub buf : List ℕ

-- sizeof(CXSessionLogin) - 1, sizeof(CXCommonMessageReply), and '\r'.
abbrev pub login_len : ℕ
login_len = 12

abbrev pub reply_len : ℕ
reply_len = 17

abbrev pub carriage_return : ℕ
carriage_return = 13

unfoldable pub user_data_len : LoginMessage → ℕ
user_data_len m = get_dword m.buf 8

unfoldable pub connection_type : LoginMessage → ℕ
connection_type m = get_byte m.buf 5

-- The reply's code, text, dwDataLen, and the length that is sent.
pub record LoginReply : Type 0 where
  pub reply_code : ℕ
  pub text : List ℕ
  pub data_len : ℕ
  pub send_len : ℕ

unfoldable pub plain_reply : ℕ → LoginReply
plain_reply code = record { reply_code = code; text = []; data_len = 0; send_len = reply_len }

-- A reply whose text is longer than what is sent.
unfoldable pub error_reply : ℕ → List ℕ → LoginReply
error_reply code text = record {
  reply_code = code;
  text = text;
  data_len = length text + 1;
  send_len = reply_len;
}

unfoldable pub text_reply : ℕ → List ℕ → LoginReply
text_reply code text = record {
  reply_code = code;
  text = text;
  data_len = length text + 1;
  send_len = reply_len + (length text + 1);
}

-- The session of the connection, and the sessions manager.
pub record LoginState : Type 0 where
  pub session : Option ℕ
  pub manager : SessionsManager

-- The end of the loop in SessionLogin: iRet, the reply and the state, or a write past the message's memory.
pub record Judged : Type 0 where
  pub code : ℕ
  pub reply : LoginReply
  pub state : LoginState

abbrev pub judged : ℕ → LoginReply → LoginState → Judged
judged e r s = record { code = e; reply = r; state = s }

-- A session with another value.
unfoldable pub change_session : ℕ → ConnectionSession → SessionsManager → SessionsManager
change_session a s m = record m { session = set_at m.session a s }

-- The two texts of the login: what stands before and behind '\r', up to the first zero.
unfoldable pub login_values : LoginMessage → Option (List ℕ × List ℕ)
login_values m =
    split_at carriage_return (until_nul (take (user_data_len m) (drop login_len m.buf)))

-- A main connection: the new session is in use with its guid and its code, which the reply carries.
unfoldable pub open_session : String → ℕ → ℕ → ℕ → ℕ → SessionsManager → SessionsManager
open_session guid random now con a m =
    let s =
      Session.reset_verification_info random now
        (record (Session.add_main_connection con (m.session a)) { session_guid = guid }) in
    (add_using_session a (change_session a s m)).1

unfoldable pub session_text : String → SessionsManager → ℕ → List ℕ
session_text guid m a = bytes_of guid ++ carriage_return ∷ bytes_of (m.session a).verification_code

unfoldable pub main_connection : Bool → String → ℕ → ℕ → ℕ → LoginState → Option Judged
main_connection succeeds guid random now con s = elim (get_free_session succeeds s.manager) [
  | none ↦ none
  | some (none, m) ↦ some (judged 7 (plain_reply 207) (record s { manager = m }))
  | some (some a, m) ↦
      let n = open_session guid random now con a m in
      some (
        judged 0 (text_reply 200 (session_text guid n a))
          (record { session = some a; manager = n }))
]

-- The connection is added to the session that is in use.
unfoldable pub add_to_session : ℕ → ℕ → ConnectionSession → ConnectionSession
add_to_session kind con s =
    if kind == 2
    then Session.add_message_connection con s
    else if kind == 3
    then Session.add_data_connection con s
    else s

unfoldable pub attach_session : ℕ → ℕ → ℕ → LoginState → Judged
attach_session kind con a s = judged 0 (plain_reply 200) (record {
  session = some a;
  manager = change_session a (add_to_session kind con (s.manager.session a)) s.manager;
})

unfoldable pub verified : Verification → ℕ → ℕ → ℕ → LoginState → Judged
verified Verification.succeed kind con a s = attach_session kind con a s
verified Verification.not_match kind con a s = judged 6 (plain_reply 205) s
verified Verification.time_out kind con a s = judged 6 (plain_reply 206) s

-- A further connection of a session: its guid and its verification code.
unfoldable pub further_connection : List ℕ → List ℕ → ℕ → ℕ → ℕ → LoginState → Judged
further_connection guid code now kind con s = elim (find_using_session (text_of guid) s.manager) [
  | none ↦ judged 2 (plain_reply 204) s
  | some a ↦ verified (Session.verify_code (text_of code) now (s.manager.session a)) kind con a s
]

unfoldable pub too_long_text : LoginMessage → List ℕ
too_long_text m =
    bytes_of "The login content length "
    ++ bytes_of (print_decimal 10 (user_data_len m))
    ++ bytes_of " is wrong, has exceeded allowable size "
    ++ bytes_of (print_decimal 10 (sub32 m.data_len login_len))
    ++ bytes_of "!"

unfoldable pub login_values_of :
    Bool → String → ℕ → ℕ → ℕ → LoginMessage → LoginState → Option Judged
login_values_of succeeds guid random now con m s = elim (login_values m) [
  | none ↦ some (judged 5 (error_reply 203 (bytes_of "The format of login content is wrong!")) s)
  | some (value1, value2) ↦
      if connection_type m == 1
      then main_connection succeeds guid random now con s
      else some (further_connection value1 value2 now (connection_type m) con s)
]

-- The login of a connection without a session; '\0' is written behind the user's data. The subtraction is
-- one of size_t.
unfoldable pub first_login : Bool → String → ℕ → ℕ → ℕ → LoginMessage → LoginState → Option Judged
first_login succeeds guid random now con m s =
    if ltb (sub64 m.data_len login_len) (user_data_len m)
    then some (judged 5 (error_reply 203 (too_long_text m)) s)
    else if leb (length m.buf) (login_len + user_data_len m)
    then none
    else login_values_of succeeds guid random now con m s

unfoldable pub judge_login :
    Bool → Bool → String → ℕ → ℕ → ℕ → LoginMessage → LoginState → Option Judged
judge_login has_manager succeeds guid random now con m s =
    if user_data_len m == 0 || leb m.data_len (user_data_len m)
    then some (judged 3 (plain_reply 201) s)
    else if not has_manager
    then some (judged 4 (plain_reply 202) s)
    else elim s.session [
      | none ↦ first_login succeeds guid random now con m s
      | some a ↦ some (judged 4 (plain_reply 205) s)
    ]

-- The result of SessionLogin: -2 closes the connection.
unfoldable pub login_result : Bool → Judged → ℕ
login_result is_sent j = if not is_sent || j.code == 2 then 2 else j.code

-- SessionLogin of a message that is not NULL: the result, the reply, and the state.
unfoldable pub session_login :
    Bool → Bool → Bool → String → ℕ → ℕ → ℕ → LoginMessage → LoginState → Option (ℕ × Judged)
session_login is_sent has_manager succeeds guid random now con m s =
    elim (judge_login has_manager succeeds guid random now con m s) [
      | none ↦ none
      | some j ↦ some (login_result is_sent j, j)
    ]

-- DispatchMes of a message with its connection: the codes of login, logout and setting are 1, 3 and 5, of
-- which only the first does anything.
unfoldable pub dispatch_mes :
    ℕ
    → Bool
    → Bool
    → Bool
    → String
    → ℕ
    → ℕ
    → ℕ
    → LoginMessage
    → LoginState
    → Option (ℕ × LoginState)
dispatch_mes code is_sent has_manager succeeds guid random now con m s =
    if code == 1
    then elim (session_login is_sent has_manager succeeds guid random now con m s) [
      | none ↦ none
      | some (e, j) ↦ some (e, j.state)
    ]
    else some (0, s)
