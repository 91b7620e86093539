-- ===== src/Client/Channel.antt =====
-- CXCommunicationClient/src/CXClientSocketChannel.cpp: Login and OpenChannel, with CXTcpClient::Create and
-- Connect. Texts are bytes without a zero. Results are without their sign. none is a fault, or a call of the
-- socket that has not returned.
pub mod Accepted
use konsan_net.Prelude.{
  ℕ, ◌+◌, ◌-◌, Bool, true, false, not, ◌&&◌, ◌||◌, Option, none, some, List, [], ◌∷◌, ◌++◌, length,
  drop, is_empty, ltb, ◌==◌, if◌then◌else◌, sub32, until_nul, split_at,
}
use konsan_net.Packet.Header.{put_dword, get_dword}
use konsan_net.Client.Tcp.{TcpClient, Socket, close}
use konsan_net.Client.Packets.{
  Outside, PacketResult, Resized, Sent, Copied, send_packet, recv_packet_data, set_send_buffer_size,
  set_recv_buffer_size,
}

pub record Channel : Type 0 where
  pub tcp : TcpClient
  pub socket : Socket
  pub channel_type : ℕ
  pub session_id : List ℕ
  pub verify_code : List ℕ
  pub is_opened : Bool
  pub login_obj_guid : List ℕ

-- CLIENT_BUF_SIZE, and ChannelType MAJOR_MES_CONNECTION.
abbrev pub client_buf_size : ℕ
client_buf_size = 4096

abbrev pub major_mes_connection : ℕ
major_mes_connection = 1

-- What the client's `socket` is told by the operating system.
pub record Network : Type 0 where
  pub creates : Bool
  pub connects : Bool

-- struct CXSessionLogin with its data, '\r' between the texts and a zero behind them.
unfoldable pub login_data : List ℕ → List ℕ → List ℕ
login_data user_name password = user_name ++ (13 ∷ (password ++ 0 ∷ []))

unfoldable pub login_message : ℕ → ℕ → ℕ → List ℕ → List ℕ → List ℕ
login_message session_type user_type channel_type user_name password =
    put_dword session_type
    ++ ((user_type ∷ channel_type ∷ 0 ∷ 0 ∷ [])
        ++ (put_dword (length (login_data user_name password)) ++ login_data user_name password))

unfoldable pub is_refused_name : List ℕ → List ℕ → Bool
is_refused_name user_name password =
    is_empty user_name
    || ltb 128 (length user_name)
    || is_empty password
    || ltb 256 (length password)

unfoldable pub with_guid : List ℕ → TcpClient → TcpClient
with_guid guid c = record c { rpc_object_guid = guid }

-- The end of Login.
pub record LoginEnd : Type 0 where
  pub result : ℕ
  pub channel : Channel

unfoldable pub closed : ℕ → List ℕ → TcpClient → Socket → Channel → LoginEnd
closed e guid c s h = record {
  result = e;
  channel = record h { tcp = close (with_guid guid c); socket = s };
}

-- The session's id and code in the reply to a main connection: a text with '\r' that ends within dwDataLen.
unfoldable pub reply_values : List ℕ → List ℕ × List ℕ
reply_values reply = elim (split_at 13 (until_nul (drop 16 reply))) [
  | none ↦ ([], [])
  | some (id, code) ↦
      if ltb (sub32 (get_dword reply 12) 1) (length id) then ([], []) else (id, code)
]

unfoldable pub logged_in : List ℕ → Channel → LoginEnd
logged_in reply h =
    if h.channel_type == major_mes_connection
    then record {
      result = 0;
      channel = record h {
        session_id = (reply_values reply).0;
        verify_code = (reply_values reply).1;
      };
    }
    else record { result = 0; channel = h }

unfoldable pub is_succeed : PacketResult → Bool
is_succeed PacketResult.return_succeed = true
is_succeed PacketResult.invalid_parameter = false
is_succeed (PacketResult.error e) = false

-- The reply to the login; the object's guid is put back.
unfoldable pub read_reply : Copied → List ℕ → Channel → LoginEnd
read_reply r guid h =
    let c = r.received.client in
    let s = r.received.socket in
    if not (is_succeed r.received.result)
    then closed 4 guid c s h
    else if not (r.received.mes_code == 2)
    then closed 5 guid c s h
    else if not (get_dword r.copied 0 == 200)
    then closed 6 guid c s h
    else logged_in r.copied (record h { tcp = with_guid guid c; socket = s })

unfoldable pub await_reply : Outside → Sent → List ℕ → Channel → Option LoginEnd
await_reply o t guid h =
    if not (is_succeed t.result)
    then some (closed 3 guid t.client t.socket h)
    else elim (recv_packet_data o client_buf_size t.client t.socket) [
      | none ↦ none
      | some r ↦ some (read_reply r guid h)
    ]

-- Login
unfoldable pub login : Outside → List ℕ → List ℕ → ℕ → ℕ → Channel → Option LoginEnd
login o user_name password user_type session_type h =
    if is_refused_name user_name password
    then some (record { result = 1; channel = h })
    else elim (send_packet o false 1
        (login_message session_type user_type h.channel_type user_name password)
        (with_guid h.login_obj_guid h.tcp) h.socket) [
          | none ↦ none
          | some t ↦ await_reply o t h.tcp.rpc_object_guid h
        ]

-- Create of a socket that was not accepted: 0, -2, or -3 without memory.
unfoldable pub created : Network → TcpClient → Bool × TcpClient
created n c = let made = record c { created = n.creates || c.created } in (made.created, made)

unfoldable pub created_recv : Network → Resized → TcpClient → Option (Bool × TcpClient)
created_recv n Resized.bad_free c = none
created_recv n Resized.no_memory c = some (false, c)
created_recv n (Resized.sized d) c = some (created n d)

unfoldable pub created_send : Network → Outside → Resized → TcpClient → Option (Bool × TcpClient)
created_send n o Resized.bad_free c = none
created_send n o Resized.no_memory c = some (false, c)
created_send n o (Resized.sized d) c =
    created_recv n (set_recv_buffer_size o.has_memory client_buf_size d) d

unfoldable pub create : Network → Outside → TcpClient → Option (Bool × TcpClient)
create n o c = created_send n o (set_send_buffer_size o.has_memory client_buf_size c) c

-- Connect: true is RETURN_SUCCEED.
unfoldable pub connect : Network → TcpClient → Bool × TcpClient
connect n c =
    if c.connected
    then (true, c)
    else if not c.created
    then (false, c)
    else if n.connects
    then (true, record c { connected = true })
    else (false, close c)

-- The texts of the login: the user's for a main connection, else those of the session.
unfoldable pub open_by_login : Outside → List ℕ → List ℕ → Channel → Option LoginEnd
open_by_login o user_name password h = elim (login o user_name password 1 1 h) [
  | none ↦ none
  | some e ↦
      if not (e.result == 0)
      then some (record { result = 3; channel = e.channel })
      else if is_empty e.channel.session_id || is_empty e.channel.verify_code
      then some (record { result = 1; channel = e.channel })
      else some (record { result = 0; channel = record (e.channel) { is_opened = true } })
]

unfoldable pub login_of : Outside → List ℕ → List ℕ → Channel → Option LoginEnd
login_of o user_name password h =
    if h.channel_type == major_mes_connection
    then open_by_login o user_name password h
    else open_by_login o h.session_id h.verify_code h

unfoldable pub connect_channel : Network → Outside → List ℕ → List ℕ → Channel → Option LoginEnd
connect_channel n o user_name password h =
    let (done, c) = connect n h.tcp in
    let at = record h { tcp = c } in
    if done then login_of o user_name password at else some (record { result = 2; channel = at })

-- OpenChannel
unfoldable pub open_channel : Network → Outside → List ℕ → List ℕ → Channel → Option LoginEnd
open_channel n o user_name password h =
    if not (h.channel_type == major_mes_connection)
      && (is_empty h.session_id || is_empty h.verify_code)
    then some (record { result = 1; channel = h })
    else if h.is_opened
    then some (record { result = 0; channel = h })
    else elim (create n o h.tcp) [
      | none ↦ none
      | some (made, c) ↦
          if made
          then connect_channel n o user_name password (record h { tcp = c })
          else some (record { result = 2; channel = record h { tcp = c } })
    ]
