-- ===== src/Packet/Processing/InOrder.antt =====
-- CXConnectionObject.cpp, ProcessUnpackedMessage: messages are taken off the list by number.
use konsan_net.Prelude.{
  ℕ, zero, suc, ◌≡◌, refl, false, List, [], ◌∷◌, ◌++◌, drop, ◌==◌, Bool-cases, Option-cases, inl,
  inr, add64,
}
use konsan_net.Packet.Processing.{
  Message, Classes, Processor, Turn, count_message, destroy_object, end_message,
}
use konsan_net.Packet.Processing.Steps.{position}

-- The k numbers after `last`, and the last of them.
unfoldable pub upto : ℕ → ℕ → List ℕ
upto last zero = []
upto last (suc k) = add64 last 1 ∷ upto (add64 last 1) k

unfoldable pub advanced : ℕ → ℕ → ℕ
advanced last zero = last
advanced last (suc k) = advanced (add64 last 1) k

-- No message is the next one.
unfoldable pub Waits : ℕ → List Message → Type 0
Waits last [] = Unit
Waits last (m ∷ ms) = (m.sequence_num == add64 last 1) ≡ false

-- A run that took k messages off the list: all of them ended and the next one is not there, or the last of them is
-- answered later and is not counted yet.
pub data Ending (p q : Processor) (k : ℕ) : Type 0 where
  waits :
      q.last_processed_message_sequence_num ≡ advanced p.last_processed_message_sequence_num k
      → q.freed ≡ p.freed ++ upto p.last_processed_message_sequence_num k
      → Waits q.last_processed_message_sequence_num q.messages
      → Ending p q k
  answers_later :
      (j : ℕ)
      → k ≡ suc j
      → q.last_processed_message_sequence_num ≡ advanced p.last_processed_message_sequence_num j
      → q.freed ≡ p.freed ++ upto p.last_processed_message_sequence_num j
      → Ending p q k

pub record InOrder (list : List Message) (p q : Processor) : Type 0 where
  pub count : ℕ
  pub taken_off : q.taken_off ≡ p.taken_off ++ upto p.last_processed_message_sequence_num count
  pub messages : q.messages ≡ drop count list
  pub ending : Ending p q count

-- What the end of a message changes.
abbrev pub Ended : ℕ → Processor → Processor → Type 0
Ended seq p q =
    ◌≡◌ {A = List Message × (ℕ × List ℕ × List ℕ)} (q.messages, position q)
      (
        p.messages,
        (add64 p.last_processed_message_sequence_num 1, p.taken_off, p.freed ++ seq ∷ []),
      )

pub end_message-Ended :
    (c : Classes) (m : Message) (t : Turn) (p : Processor)
    → Ended m.sequence_num p (end_message c m t p)
unfolding end_message destroy_object count_message
end_message-Ended c m t p = elim (Option-cases t.object) [
  | inl e ↦ rw (e, destroy_object) refl
  | inr (a, e) ↦ elim (Bool-cases t.destroys) [
    | inl y ↦ rw (e, y, destroy_object) refl
    | inr n ↦ rw (e, n, destroy_object) refl
  ]
]
