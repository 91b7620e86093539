-- ===== src/Client/Packets/Pieces.antt =====
-- CXTcpClient.cpp, RecvPacket: the bytes of a message, and what one read takes of a socket.
use konsan_net.Prelude.{
  ℕ, zero, suc, ◌+◌, ◌^◌, ◌<◌, ◌≤◌, ◌≡◌, refl, ap, ◌∙◌, true, false, some, List, [], ◌∷◌, ◌++◌,
  length, take, drop, ◌==◌, arith, length-append, append_assoc,
}
use konsan_net.Packet.Header.{put_dword, get_byte, get_dword}
use konsan_net.Packet.Sender.{packet_body}
use konsan_net.Client.Tcp.{TcpClient, Socket, SocketCall, recv_loop, recv, is_usable, is_whole}
use konsan_net.Client.Tcp.Transfers.{Alive, recv_loop-ReadAll}

-- All the bytes are read, and the calls that are left.
pub record RecvRun (want : ℕ) (c : TcpClient) (s : Socket) : Type 0 where
  pub rest : List SocketCall
  pub alive : Alive rest
  pub enough : length s.calls ≤ length rest + want
  pub run :
      recv want c s
      ≡ some (record {
        complete = true;
        bytes = take want s.incoming;
        client = c;
        socket = record { calls = rest; incoming = drop want s.incoming; outgoing = s.outgoing };
      })

pub recv-run :
    (want : ℕ) (c : TcpClient) (s : Socket)
    → 0 < want
    → is_usable c ≡ true
    → Alive s.calls
    → want ≤ length s.incoming
    → want ≤ length s.calls
    → RecvRun want c s
unfolding is_whole recv konsan_net.Client.Tcp.closed_unless
recv-run want c s some_bytes usable alive arrived enough =
    let all = recv_loop-ReadAll s.calls s.incoming s.outgoing want [] alive arrived enough in
    let wanted : (want == 0) ≡ false = ground arith in
    record {
      rest = all.rest;
      alive = all.alive;
      enough = all.enough;
      run = rw (wanted, usable, all.run, recv) refl;
    }

-- Bytes behind others.
get_byte-skip :
    (xs ys : List ℕ) (k i j : ℕ) → length xs ≡ k → j ≡ k + i → get_byte (xs ++ ys) j ≡ get_byte ys i
unfolding get_byte
get_byte-skip [] ys k i j n e = ap (get_byte ys) (let same : j ≡ i = omega arith in same)
get_byte-skip (x ∷ xs) ys k i zero n e = absurd (omega arith)
get_byte-skip (x ∷ xs) ys zero i (suc j) n e = absurd (omega arith)
get_byte-skip (x ∷ xs) ys (suc k) i (suc j) n e =
    get_byte-skip xs ys k i j (omega arith) (omega arith)

dword_bytes :
    (code : ℕ) (rest : List ℕ) → code < 2 ^ 32 → get_dword (put_dword code ++ rest) 0 ≡ code
unfolding get_dword get_byte put_dword
dword_bytes code rest small = omega arith

-- A body with its parts bracketed to the right.
packet_body_assoc :
    (object request : List ℕ) (code num : ℕ) (pb_data rest : List ℕ)
    → packet_body object request code num pb_data ++ rest
      ≡ (object ++ request) ++ (put_dword code ++ (put_dword num ++ (pb_data ++ rest)))
unfolding packet_body put_dword
packet_body_assoc object request code num pb_data rest = simp (append_assoc, packet_body)

-- The code stands behind the two guids, and the data behind the code and the number.
pub get_dword-packet_body :
    (object request : List ℕ) (code num : ℕ) (pb_data rest : List ℕ)
    → length object ≡ 16
    → length request ≡ 16
    → code < 2 ^ 32
    → get_dword (packet_body object request code num pb_data ++ rest) 32 ≡ code
unfolding get_dword
get_dword-packet_body object request code num pb_data rest a b small =
    let front = object ++ request in
    let n = length-append object request in
    let size : length front ≡ 32 = omega arith in
    let behind = put_dword code ++ (put_dword num ++ (pb_data ++ rest)) in
    ap (λ bytes. get_dword bytes 32) (packet_body_assoc object request code num pb_data rest)
    ∙ rw
        (
          get_byte-skip front behind 32 0 32 size refl,
          get_byte-skip front behind 32 1 33 size refl,
          get_byte-skip front behind 32 2 34 size refl,
          get_byte-skip front behind 32 3 35 size refl,
          get_dword,
        )
        (dword_bytes code (put_dword num ++ (pb_data ++ rest)) small)
