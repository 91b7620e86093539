-- ===== src/Server/Sequence.antt =====
-- CXCommunicationServer/src/CXConnectionObject.cpp: the lists of buffers and messages that a connection
-- keeps by sequence number. PushReceivedBuffer, PushSendBuffer and PushMessage are the same code on three
-- lists; `head` and `end` are the two pointers of one, `next` and `sequence_num` the fields of all nodes.
-- The loop has fuel: as much as the list has nodes is enough. A push is none where it reads through
-- NULL; otherwise false means that the two pointers disagree. A NULL node, which the source refuses, is
-- not pushed.
pub mod Ordered
pub mod Middle
pub mod FromHead
pub mod Push
pub mod Receive
use konsan_net.Prelude.{
  ℕ, zero, suc, ◌+◌, Bool, true, false, Option, none, some, ltb, if◌then◌else◌, add64, sub64,
}
use konsan_net.Chain.{set_at}

pub record SequenceList : Type 0 where
  pub head : Option ℕ
  pub end : Option ℕ
  pub next : ℕ → Option ℕ
  pub sequence_num : ℕ → ℕ

-- The loop from the second node on: `prev` and `cur` are pPrevBuf and pCurBuf.
unfoldable pub push_middle : ℕ → ℕ → Option ℕ → ℕ → SequenceList → SequenceList
push_middle zero prev cur b l = l
push_middle (suc fuel) prev none b l = l
push_middle (suc fuel) prev (some c) b l =
    let rest = push_middle fuel c (l.next c) b l in
    if ltb (l.sequence_num b) (l.sequence_num c)
    then record l { next = set_at (set_at l.next prev (some b)) b (some c) }
    else rest

-- The push at the end, at the head, and by the loop; each says whether the other pointer is there.
unfoldable pub push_end : ℕ → ℕ → SequenceList → Bool × SequenceList
push_end e b l = (
  elim l.head [ none ↦ false | some h ↦ true ],
  record l { next = set_at l.next e (some b); end = some b },
)

unfoldable pub push_head : ℕ → SequenceList → Bool × SequenceList
push_head b l = (
  elim l.end [ none ↦ false | some e ↦ true ],
  record l { next = set_at l.next b l.head; head = some b },
)

unfoldable pub push_from_head : ℕ → ℕ → SequenceList → Option (Bool × SequenceList)
push_from_head fuel b l = elim l.head [
  | none ↦ none
  | some h ↦
      if ltb (l.sequence_num b) (l.sequence_num h)
      then some (push_head b l)
      else some (true, push_middle fuel h (l.next h) b l)
]

-- The branches of PushReceivedBuffer, PushSendBuffer and PushMessage.
unfoldable pub push_cleared : ℕ → ℕ → SequenceList → Option (Bool × SequenceList)
push_cleared fuel b l = elim l.end [
  | some e ↦
      if ltb (l.sequence_num e) (l.sequence_num b)
      then some (push_end e b l)
      else push_from_head fuel b l
  | none ↦ elim l.head [
    | none ↦ some (true, record l { head = some b; end = some b })
    | some h ↦ push_from_head fuel b l
  ]
]

unfoldable pub push_sequence : ℕ → ℕ → SequenceList → Option (Bool × SequenceList)
push_sequence fuel b l = push_cleared fuel b (record l { next = set_at l.next b none })

-- PushSendBuffer and PushMessage.
unfoldable pub push_send_buffer : ℕ → ℕ → SequenceList → Option (Bool × SequenceList)
push_send_buffer fuel b l = push_sequence fuel b l

unfoldable pub push_message : ℕ → ℕ → SequenceList → Option (Bool × SequenceList)
push_message fuel b l = push_sequence fuel b l

-- The read buffers of a connection and their counters.
pub record ReadBuffers : Type 0 where
  pub buffers : SequenceList
  pub last_packet_time : ℕ
  pub number_of_received_buffer_in_list : ℕ
  pub posted_recv_buffers : ℕ

-- PushReceivedBuffer, at the time `now`.
unfoldable pub push_received_buffer : ℕ → ℕ → ℕ → ReadBuffers → Option (Bool × ReadBuffers)
push_received_buffer fuel now b s = elim (push_sequence fuel b s.buffers) [
  | none ↦ none
  | some (false, l) ↦ some (false, record s { buffers = l; last_packet_time = now })
  | some (true, l) ↦ some (
    true,
    record s {
      buffers = l;
      last_packet_time = now;
      number_of_received_buffer_in_list = add64 s.number_of_received_buffer_in_list 1;
      posted_recv_buffers = sub64 s.posted_recv_buffers 1;
    },
  )
]
