-- ===== src/Client/Tcp.antt =====
-- CXCommunicationClient/src/CXTcpClient.cpp: Recv, Send and Close over a blocking socket. They run in one
-- thread, in which only Close sets m_bClosing, and resets it. Client/Packets has what is built on them.
pub mod Transfers
use konsan_net.Prelude.{
  ℕ, zero, suc, ◌+◌, ◌-◌, Bool, true, false, not, ◌&&◌, Option, none, some, List, [], ◌∷◌, ◌++◌,
  length, take, drop, is_empty, ltb, ◌==◌, if◌then◌else◌,
}

-- Send buffers and receive buffers are known by their lengths. `real_send_buffer` is the address of
-- m_pbyRealSendBuffer, `allocated` the first one that was not used, and `recv_buffer` the bytes of
-- m_pbyRecvBuffer, as far as they were written.
pub record TcpClient : Type 0 where
  pub created : Bool
  pub connected : Bool
  pub packet_number : ℕ
  pub send_buffer_len : ℕ
  pub real_send_buffer : ℕ
  pub allocated : ℕ
  pub recv_buffer_len : ℕ
  pub recv_buffer : List ℕ
  pub encrypt_type : ℕ
  pub compress_type : ℕ
  pub left_data_begin_pos : ℕ
  pub left_recv_data_len : ℕ
  pub rpc_object_guid : List ℕ
  pub request_id : List ℕ
  pub used_memory_cache_pool : Bool
  pub get_real_object_id : Bool

-- One call of `recv` or `send`: it moves `moves n`, at most n + 1 bytes, or returns 0, or SOCKET_ERROR.
pub data SocketCall : Type 0 where
  moves : ℕ → SocketCall
  ends : SocketCall
  fails : SocketCall

-- The calls to come, the bytes that arrive, and the bytes that were sent.
pub record Socket : Type 0 where
  pub calls : List SocketCall
  pub incoming : List ℕ
  pub outgoing : List ℕ

-- The end of a loop: iOffset bytes, and how it ended. none is a call that has not returned.
pub data Ended : Type 0 where
  whole : Ended
  at_end : Ended
  failed : Ended

pub record Moved : Type 0 where
  pub bytes : List ℕ
  pub ended : Ended
  pub socket : Socket

-- The loop of Recv: `want` bytes are missing. A call waits until there are bytes.
unfoldable pub recv_loop : List SocketCall → List ℕ → List ℕ → ℕ → List ℕ → Option Moved
recv_loop calls incoming outgoing zero got = some (record {
  bytes = got;
  ended = Ended.whole;
  socket = record { calls = calls; incoming = incoming; outgoing = outgoing };
})
recv_loop [] incoming outgoing (suc want) got = none
recv_loop (SocketCall.moves n ∷ calls) [] outgoing (suc want) got = none
recv_loop (SocketCall.moves n ∷ calls) (b ∷ incoming) outgoing (suc want) got =
    let size = if ltb n want then n else want in
    recv_loop calls (drop size incoming) outgoing (want - length (take size incoming))
      (got ++ b ∷ take size incoming)
recv_loop (SocketCall.ends ∷ calls) incoming outgoing (suc want) got = some (record {
  bytes = got;
  ended = Ended.at_end;
  socket = record { calls = calls; incoming = incoming; outgoing = outgoing };
})
recv_loop (SocketCall.fails ∷ calls) incoming outgoing (suc want) got = some (record {
  bytes = got;
  ended = Ended.failed;
  socket = record { calls = calls; incoming = incoming; outgoing = outgoing };
})

-- The loop of Send over the bytes that are left.
unfoldable pub send_loop : List SocketCall → List ℕ → List ℕ → List ℕ → List ℕ → Option Moved
send_loop calls incoming outgoing sent [] = some (record {
  bytes = sent;
  ended = Ended.whole;
  socket = record { calls = calls; incoming = incoming; outgoing = outgoing };
})
send_loop [] incoming outgoing sent (b ∷ left) = none
send_loop (SocketCall.moves n ∷ calls) incoming outgoing sent (b ∷ left) =
    let took = b ∷ take n left in
    send_loop calls incoming (outgoing ++ took) (sent ++ took) (drop n left)
send_loop (SocketCall.ends ∷ calls) incoming outgoing sent (b ∷ left) = some (record {
  bytes = sent;
  ended = Ended.at_end;
  socket = record { calls = calls; incoming = incoming; outgoing = outgoing };
})
send_loop (SocketCall.fails ∷ calls) incoming outgoing sent (b ∷ left) = some (record {
  bytes = sent;
  ended = Ended.failed;
  socket = record { calls = calls; incoming = incoming; outgoing = outgoing };
})

-- Close
unfoldable pub close : TcpClient → TcpClient
close c = record c {
  connected = false;
  left_data_begin_pos = 0;
  left_recv_data_len = 0;
  get_real_object_id = false;
}

-- Recv and Send: whether all bytes were moved, the bytes, and the client.
pub record Transferred : Type 0 where
  pub complete : Bool
  pub bytes : List ℕ
  pub client : TcpClient
  pub socket : Socket

unfoldable pub is_whole : Ended → Bool
is_whole Ended.whole = true
is_whole Ended.at_end = false
is_whole Ended.failed = false

unfoldable pub closed_unless : Bool → TcpClient → TcpClient
closed_unless complete c = if complete then c else close c

unfoldable pub is_usable : TcpClient → Bool
is_usable c = c.connected && c.created

unfoldable pub refused_transfer : TcpClient → Socket → Transferred
refused_transfer c s = record { complete = false; bytes = []; client = c; socket = s }

-- Recv, which closes the client unless it gets all the bytes.
unfoldable pub recv : ℕ → TcpClient → Socket → Option Transferred
recv want c s =
    if want == 0
    then some (refused_transfer c s)
    else if not (is_usable c)
    then some (refused_transfer c s)
    else elim (recv_loop s.calls s.incoming s.outgoing want []) [
      | none ↦ none
      | some m ↦ some (record {
        complete = is_whole m.ended;
        bytes = m.bytes;
        client = closed_unless (is_whole m.ended) c;
        socket = m.socket;
      })
    ]

-- Send
unfoldable pub send : List ℕ → TcpClient → Socket → Option Transferred
send bytes c s =
    if is_empty bytes
    then some (refused_transfer c s)
    else if not (is_usable c)
    then some (refused_transfer c s)
    else elim (send_loop s.calls s.incoming s.outgoing [] bytes) [
      | none ↦ none
      | some m ↦
          some
            (record { complete = is_whole m.ended; bytes = m.bytes; client = c; socket = m.socket })
    ]
