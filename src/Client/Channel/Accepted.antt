-- ===== src/Client/Channel/Accepted.antt =====
-- CXClientSocketChannel.cpp, Login, and CXSessionLevelBase.cpp, SessionLogin: the server reads the two texts
-- that the client sends.
use konsan_net.Prelude.{
  ℕ, ◌+◌, ◌^◌, ◌<◌, ◌≡◌, refl, sym, ap, ◌∙◌, false, some, List, [], ◌∷◌, ◌++◌, length, take-append,
  append_assoc, length-append, ◌==◌, ==_refl, All, All-append, until_nul, split_at, arith,
}
use konsan_net.Packet.Header.{put_dword, get_byte, get_dword}
use konsan_net.Client.Channel.{login_data, login_message}
use konsan_net.Server.Login.{LoginMessage, login_len, user_data_len, connection_type, login_values}
use konsan_net.Server.Login.Main.{Readable}

-- No byte of a text is `mark`.
abbrev pub Without : ℕ → List ℕ → Type 0
Without mark = All (λ b. (b == mark) ≡ false)

until_nul-append : (xs ys : List ℕ) → Without 0 xs → until_nul (xs ++ 0 ∷ ys) ≡ xs
unfolding until_nul
until_nul-append [] ys h = refl
until_nul-append (x ∷ xs) ys (h, hs) = rw h (ap (λ (l : List ℕ). x ∷ l) (until_nul-append xs ys hs))

split_at-append :
    (mark : ℕ) (xs ys : List ℕ) → Without mark xs → split_at mark (xs ++ mark ∷ ys) ≡ some (xs, ys)
unfolding split_at
split_at-append mark [] ys h = rw (==_refl mark) refl
split_at-append mark (x ∷ xs) ys (h, hs) = rw (h, split_at-append mark xs ys hs, split_at) refl

-- The message as it lies in the server's memory, with what is behind it there.
abbrev pub arrived : ℕ → ℕ → ℕ → List ℕ → List ℕ → List ℕ → LoginMessage
arrived session_type user_type channel_type user_name password behind =
    let sent = login_message session_type user_type channel_type user_name password in
    record { data_len = 40 + length sent; buf = sent ++ behind }

-- The texts with a zero behind them, cut apart again.
split-login_data :
    (user_name password : List ℕ)
    → Without 0 user_name
    → Without 13 user_name
    → Without 0 password
    → split_at 13 (until_nul (login_data user_name password)) ≡ some (user_name, password)
unfolding login_data
split-login_data user_name password no_zero no_mark no_end =
    ap (λ bs. split_at 13 (until_nul bs)) (sym (append_assoc user_name (13 ∷ password) (0 ∷ [])))
    ∙ ap (split_at 13) (
        until_nul-append (user_name ++ 13 ∷ password) []
          (All-append (λ b. (b == 0) ≡ false) user_name (13 ∷ password) no_zero (refl, no_end)))
    ∙ split_at-append 13 user_name password no_mark

module _ (session_type user_type channel_type : ℕ) (user_name password behind : List ℕ)
    (small : length user_name + length password < 2 ^ 20) where
  abbrev text : List ℕ
  text = login_data user_name password

  length-text : length text ≡ length user_name + length password + 2
  unfolding login_data
  length-text =
      let a = length-append user_name (13 ∷ (password ++ 0 ∷ [])) in
      let b = length-append password (0 ∷ []) in omega arith

  user_data_len-arrived :
      user_data_len (arrived session_type user_type channel_type user_name password behind)
      ≡ length text
  unfolding user_data_len login_message put_dword get_dword get_byte
  user_data_len-arrived = let n = length-text in omega arith

  length-sent :
      length (login_message session_type user_type channel_type user_name password)
      ≡ login_len + length text
  unfolding login_message put_dword
  length-sent = omega arith

  login_values-arrived :
      Without 0 user_name
      → Without 13 user_name
      → Without 0 password
      → login_values (arrived session_type user_type channel_type user_name password behind)
        ≡ some (user_name, password)
  unfolding login_values login_message login_data put_dword
  login_values-arrived no_zero no_mark no_end = rw user_data_len-arrived (
      ap (λ bs. split_at 13 (until_nul bs)) (take-append (length text) text behind refl)
      ∙ split-login_data user_name password no_zero no_mark no_end)

-- SessionLogin can read the message that Login sends, and finds the user's name and password, or the
-- session's id and code, and the type of the channel in it: where neither text has a zero and the first no
-- '\r', and they are shorter than a MB.
pub login_message-Readable :
    (session_type user_type channel_type : ℕ) (user_name password behind : List ℕ)
    → Without 0 user_name
    → Without 13 user_name
    → Without 0 password
    → length user_name + length password < 2 ^ 20
    → length behind ≡ 40
    → Readable
        (arrived session_type user_type channel_type user_name password behind)
        user_name
        password
      × (connection_type (arrived session_type user_type channel_type user_name password behind)
          ≡ channel_type)
unfolding connection_type get_byte login_message put_dword
login_message-Readable session_type user_type channel_type user_name password behind no_zero no_mark
      no_end small rest =
    let n = length-text session_type user_type channel_type user_name password behind small in
    let len =
      user_data_len-arrived session_type user_type channel_type user_name password behind small in
    let sent = length-sent session_type user_type channel_type user_name password behind small in
    let all =
      length-append (login_message session_type user_type channel_type user_name password) behind in
    (
      record {
        some_data = omega arith;
        fits = omega arith;
        bound = omega arith;
        room = omega arith;
        values =
            login_values-arrived session_type user_type channel_type user_name password behind small
              no_zero no_mark no_end;
      },
      refl,
    )
