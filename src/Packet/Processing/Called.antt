-- ===== src/Packet/Processing/Called.antt =====
-- CXConnectionObject.cpp, ProcessUnpackedMessage: the objects that are called.
use konsan_net.Prelude.{
  ℕ, arith, ◌≡◌, ◌⊎◌, refl, sym, ap, ◌∙◌, Bool, true, false, Option, none, some, List, [], ◌∷◌,
  ◌++◌, length, All, ◌==◌, ==_iff, if◌then◌else◌, Bool-cases, Option-cases, inl, inr, add64,
  append_assoc, append-nil, string_key,
}
use konsan_net.Server.Session.{ConnectionSession, find_object}
use konsan_net.Packet.Processing.{
  Message, Classes, Processor, Turn, find_in_session, look_up, call_object, serve, take_message,
  count_message, destroy_object, end_message, process_loop, process_unpacked_message, push_in_order,
}
use konsan_net.Packet.Processing.Steps.{serve-Same}
use konsan_net.Packet.Processing.InOrder.{upto, end_message-Ended}

-- A message names no object, or one that the session has.
unfoldable pub Known : ConnectionSession → Message → Type 0
Known s m =
    (string_key.beq m.object_guid "" ≡ true) ⊎ ((a : ℕ) × (find_object m.object_guid s ≡ some a))

-- The calls for messages: the object of the session that a message names, and the message's number.
unfoldable pub calls_of : ConnectionSession → List Message → List (ℕ × ℕ)
calls_of s [] = []
calls_of s (m ∷ ms) =
    let rest = calls_of s ms in
    if string_key.beq m.object_guid ""
    then rest
    else elim (find_object m.object_guid s) [ none ↦ rest | some a ↦ (a, m.sequence_num) ∷ rest ]

unfoldable pub numbers : List Message → List ℕ
numbers [] = []
numbers (m ∷ ms) = m.sequence_num ∷ numbers ms

-- What was called for the messages that were taken off the front of the list.
pub record Called (s : ConnectionSession) (list : List Message) (p q : Processor) : Type 0 where
  pub done : List Message
  pub front : list ≡ done ++ q.messages
  pub numbered : numbers done ≡ upto p.last_processed_message_sequence_num (length done)
  pub calls : q.calls ≡ p.calls ++ calls_of s done

abbrev standing : Processor → Option ConnectionSession × List (ℕ × ℕ)
standing p = (p.session, p.calls)

look_up-known :
    (c : Classes) (m : Message) (p : Processor) (s : ConnectionSession) (a : ℕ)
    → p.session ≡ some s
    → find_object m.object_guid s ≡ some a
    → look_up c m p ≡ (some a, (m, p))
unfolding look_up find_in_session
look_up-known c m p s a has found =
    let here : find_in_session m p ≡ (some a, p) = ground arith in ground arith

serve-standing :
    (c : Classes) (m : Message) (code : ℕ) (need_close : Bool) (p : Processor)
    (s : ConnectionSession)
    → p.session ≡ some s
    → Known s m
    → standing (serve c m code need_close p).processor ≡ (some s, p.calls ++ calls_of s (m ∷ []))
unfolding serve call_object calls_of Known
serve-standing c m code need_close p s has known =
    elim (Bool-cases (string_key.beq m.object_guid "")) [
      | inl e ↦
          rw (e, serve, calls_of)
            (ap (λ o. (o, p.calls)) has ∙ ap (λ l. (some s, l)) (sym (append-nil p.calls)))
      | inr n ↦ elim known [
        | inl e ↦ absurd (cc)
        | inr (a, found) ↦ let looked = look_up-known c m p s a has found in ground arith
      ]
    ]

end_message-standing :
    (c : Classes) (m : Message) (t : Turn) (p : Processor)
    → standing (end_message c m t p) ≡ standing p
unfolding end_message destroy_object count_message
end_message-standing c m t p = elim (Option-cases t.object) [
  | inl e ↦ rw (e, destroy_object) refl
  | inr (a, e) ↦ elim (Bool-cases t.destroys) [
    | inl y ↦ rw (e, y, destroy_object) refl
    | inr n ↦ rw (e, n, destroy_object) refl
  ]
]

calls_of-before :
    (s : ConnectionSession) (m : Message) (ms : List Message)
    → calls_of s (m ∷ []) ++ calls_of s ms ≡ calls_of s (m ∷ ms)
unfolding calls_of
calls_of-before s m ms = ground arith

-- Nothing is taken off.
stops-Called :
    (s : ConnectionSession) (list : List Message) (p : Processor)
    → p.messages ≡ list
    → Called s list p p
unfolding upto calls_of numbers
stops-Called s list p e = record {
  done = [];
  front = sym e;
  numbered = refl;
  calls = sym (append-nil p.calls);
}

-- One message more before a run.
Called-before :
    (s : ConnectionSession) (m : Message) (rest : List Message) (p n q : Processor)
    → m.sequence_num ≡ add64 p.last_processed_message_sequence_num 1
    → n.last_processed_message_sequence_num ≡ add64 p.last_processed_message_sequence_num 1
    → n.calls ≡ p.calls ++ calls_of s (m ∷ [])
    → Called s rest n q
    → Called s (m ∷ rest) p q
unfolding upto numbers
Called-before s m rest p n q number last called i = record {
  done = m ∷ i.done;
  front = ap (λ l. m ∷ l) i.front;
  numbered =
      ap (λ x. x ∷ numbers i.done) number
      ∙ ap (λ l. add64 p.last_processed_message_sequence_num 1 ∷ l)
          (i.numbered ∙ ap (λ x. upto x (length i.done)) last);
  calls =
      i.calls
      ∙ ap (λ l. l ++ calls_of s i.done) called
      ∙ append_assoc p.calls (calls_of s (m ∷ [])) (calls_of s i.done)
      ∙ ap (λ l. p.calls ++ l) (calls_of-before s m i.done);
}

process_loop-Called :
    (c : Classes) (code : ℕ) (need_close : Bool) (s : ConnectionSession) (list : List Message)
    (p : Processor)
    → p.messages ≡ list
    → p.session ≡ some s
    → All (Known s) list
    → Called s list p (process_loop c code need_close list p).1
unfolding process_loop take_message upto numbers
process_loop-Called c code need_close s [] p e has known = stops-Called s [] p e
process_loop-Called c code need_close s (m ∷ rest) p e has known =
    let next = add64 p.last_processed_message_sequence_num 1 in
    let t = serve c m code need_close p in
    let taken = take_message m rest t.processor in
    let n = end_message c m t taken in
    let stands = serve-standing c m code need_close p s has known.0 in
    let called : taken.calls ≡ p.calls ++ calls_of s (m ∷ []) = ap (λ x. x.1) stands in
    elim (Bool-cases (m.sequence_num == next)) [
      | inr gap ↦ rw (gap, process_loop) (stops-Called s (m ∷ rest) p e)
      | inl number ↦
          let same = (==_iff m.sequence_num next).0 number in
          elim (Bool-cases t.is_asynchronous) [
            | inl later ↦
                simp (number, later, process_loop)
                  (record {
                    done = m ∷ [];
                    front = refl;
                    numbered = ap (λ x. x ∷ []) same;
                    calls = called;
                  })
            | inr now ↦
                let ended = end_message-Ended c m t taken in
                let k = serve-Same c m code need_close p in
                let after = end_message-standing c m t taken in
                let last : n.last_processed_message_sequence_num ≡ next =
                  ap {B = ℕ} (λ x. x.1.0) ended ∙ ap (λ x. add64 x.0 1) k in
                simp (number, now, process_loop)
                  (Called-before s m rest p n (process_loop c t.code t.need_close rest n).1 same
                    last (ap (λ x. x.1) after ∙ called)
                    (process_loop-Called c t.code t.need_close s rest n
                      (ap {B = List Message} (λ x. x.0) ended)
                      (ap (λ x. x.0) after ∙ ap (λ x. x.0) stands) known.1))
          ]
    ]

-- Where the session has the objects that the messages name, ProcessUnpackedMessage calls, for the messages that
-- it takes off the front of the list and for no others, ProcessMessage of the object that the session has under
-- the message's guid, once each and in the order of their numbers, which are the consecutive ones after the
-- last message that was processed. For a message with an empty guid nothing is called.
pub process_unpacked_message-Called :
    (c : Classes) (m : Message) (p : Processor) (s : ConnectionSession)
    → p.session ≡ some s
    → All (Known s) (push_in_order m p.messages)
    → Called s (push_in_order m p.messages) p (process_unpacked_message c (some m) p).1
unfolding process_unpacked_message
process_unpacked_message-Called c m p s has known =
    let list = push_in_order m p.messages in
    let i = process_loop-Called c 0 false s list (record p { messages = list }) refl has known in
    record { done = i.done; front = i.front; numbered = i.numbered; calls = i.calls }
