-- ===== src/Packet/Closing/Once.antt =====
-- CXCommunicationServer.cpp, CloseConnection: a connection is released once, and when nothing is left.
use konsan_net.Prelude.{ℕ, ◌≡◌, false}
use konsan_net.Packet.Closing.{State, ClosedType, Link, is_ending, close, close_connection}

-- What happens to a connection from its creation on: its state goes on below CLOSING, its counters move,
-- it is closed for any reason, and, where it could not be attached, Close is called and its state set to
-- CLOSED, before AddFreeConnectionObj gets it.
pub data Move : Link → Link → Type 0 where
  advance :
      {l : Link} (st : State)
      → is_ending l.state ≡ false
      → is_ending st ≡ false
      → Move l (record l { state = st })
  count :
      {l : Link} (sent received listed queued : ℕ)
      → Move l (record l {
        posted_sent_buffers = sent;
        posted_recv_buffers = received;
        number_of_received_buffer_in_list = listed;
        number_of_received_packet_in_queue = queued;
        read_buffers = listed;
      })
  shut : {l : Link} (t : ClosedType) → Move l (close_connection t l)
  failed :
      {l : Link} → is_ending l.state ≡ false → Move l (record (close l) { state = State.closed })

pub data Moves : Link → Link → Type 0 where
  rest : {l : Link} → Moves l l
  after : {l m n : Link} → Moves l m → Move m n → Moves l n
