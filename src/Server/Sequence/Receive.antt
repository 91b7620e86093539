-- ===== src/Server/Sequence/Receive.antt =====
-- PushReceivedBuffer, which also counts the buffers.
use konsan_net.Prelude.{
  ◌^◌, add64, sub64, ℕ, suc, ◌+◌, ◌<◌, ◌≤◌, ◌≡◌, refl, true, some, List, [], ◌∷◌, arith, length,
}
use konsan_net.Server.Sequence.{ReadBuffers, push_received_buffer}
use konsan_net.Server.Sequence.Ordered.{New, insert_ordered}
use konsan_net.Server.Sequence.Middle.{Represents}
use konsan_net.Server.Sequence.Push.{push_sequence-Represents}

-- The read buffers stand for `xs`, and the counter says how many they are.
pub record ReadRepresents (s : ReadBuffers) (xs : List ℕ) : Type 0 where
  pub listed : Represents s.buffers xs
  pub counted : s.number_of_received_buffer_in_list ≡ length xs

insert_ordered-length :
    (s : ℕ → ℕ) (b : ℕ) (xs : List ℕ) → length (insert_ordered s b xs) ≡ suc (length xs)
insert_ordered-length s b [] = refl
insert_ordered-length s b (x ∷ xs) = ground (arith, insert_ordered-length s b xs)

-- PushReceivedBuffer of a buffer with a new sequence number succeeds, puts it in its place, counts it,
-- and records the time.
pub push_received_buffer-Represents :
    (fuel now b : ℕ) (xs : List ℕ) (s : ReadBuffers)
    → ReadRepresents s xs
    → New s.buffers.sequence_num b xs
    → length xs ≤ fuel
    → length xs + 1 < 2 ^ 64
    → (r : ReadBuffers) × ((push_received_buffer fuel now b s ≡ some (true, r))
        × (ReadRepresents r (insert_ordered s.buffers.sequence_num b xs)
            × (r.last_packet_time ≡ now)))
unfolding push_received_buffer
push_received_buffer-Represents fuel now b xs s h w k small =
    let (l, (run, (listed, numbers))) = push_sequence-Represents fuel b xs s.buffers h.listed w k in
    let number = insert_ordered-length s.buffers.sequence_num b xs in
    let before = h.counted in
    (
      record s {
        buffers = l;
        last_packet_time = now;
        number_of_received_buffer_in_list = add64 s.number_of_received_buffer_in_list 1;
        posted_recv_buffers = sub64 s.posted_recv_buffers 1;
      },
      (
        rw (run, push_received_buffer) refl,
        (record { listed = listed; counted = omega arith }, refl),
      ),
    )
