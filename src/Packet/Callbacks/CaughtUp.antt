-- ===== src/Packet/Callbacks/CaughtUp.antt =====
-- CXConnectionObject.cpp: ProcessUnpackedMessage, and then ProcessAsyncMessageEnd of the message that it
-- left to be answered.
use konsan_net.Prelude.{ℕ, zero, suc, ◌≡◌, ◌⊎◌, inl, inr, refl, sym, ap, ◌∙◌, Bool, List, add64}
use konsan_net.Packet.Processing.{Message, Processor}
use konsan_net.Packet.Processing.InOrder.{InOrder, Ending, advanced, Waits}
use konsan_net.Packet.Callbacks.{process_async_message_end}

advanced-suc : (last j : ℕ) → add64 (advanced last j) 1 ≡ advanced last (suc j)
unfolding advanced
advanced-suc last zero = refl
advanced-suc last (suc j) = advanced-suc (add64 last 1) j

-- A run of ProcessUnpackedMessage has either ended all the messages that it took off the list and waits for the next
-- number, or ProcessAsyncMessageEnd of its last message makes that the last processed one.
pub process_async_message_end-advanced :
    (list : List Message) (p q : Processor) (m : Message) (failed : Bool) (run : InOrder list p q)
    → Waits q.last_processed_message_sequence_num q.messages
      ⊎ ((process_async_message_end m failed q).1.last_processed_message_sequence_num
          ≡ advanced p.last_processed_message_sequence_num run.count)
unfolding process_async_message_end
process_async_message_end-advanced list p q m failed run = elim run.ending [
  | Ending.waits l f w ↦ inl w
  | Ending.answers_later j e l f ↦ inr (
      ap (λ x. add64 x 1) l
      ∙ advanced-suc p.last_processed_message_sequence_num j
      ∙ ap (λ k. advanced p.last_processed_message_sequence_num k) (sym e))
]
