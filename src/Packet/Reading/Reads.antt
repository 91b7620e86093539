-- ===== src/Packet/Reading/Reads.antt =====
-- CXConnectionObject.cpp, RecvData: what becomes of the buffer and of its number.
use konsan_net.Prelude.{ℕ, suc, ◌≤◌, ◌≡◌, ◌⊎◌, Option, none, some, length, add64}
use konsan_net.Packet.Receiver.{Buffer}
use konsan_net.Packet.Reading.{Reader, ReadOut}

-- The buffer has the next number and data, and 4096 bytes exactly if the result is 0.
pub record Numbered (before : ℕ) (code : ℕ) (b : Buffer) : Type 0 where
  pub next : b.sequence_num ≡ add64 before 1
  pub has_data : 1 ≤ length b.left
  pub full : ((code ≡ 0) × (length b.left ≡ 4096)) ⊎ ((1 ≤ code) × (suc (length b.left) ≤ 4096))

-- The reader is left as it was and there is no buffer, or the reader stands at the number of a new one.
pub Reads : Reader → Option ReadOut → Type 0
Reads r none = Unit
Reads r (some o) =
    ((o.buffer ≡ none) × (o.reader ≡ r) × (1 ≤ o.code))
    ⊎ ((b : Buffer) × (o.buffer ≡ some b)
        × (o.reader.recv_buffer_index ≡ b.sequence_num)
        × Numbered r.recv_buffer_index o.code b)
