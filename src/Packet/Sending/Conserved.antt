-- ===== src/Packet/Sending/Conserved.antt =====
-- CXConnectionObject.cpp, SendDataList: while the socket has no error, the bytes that it took and those
-- that wait in the order of their numbers are together the same stream.
use konsan_net.Prelude.{
  ℕ, suc, ◌≡◌, ◌⊎◌, refl, sym, ap, ◌∙◌, subst, Bool, true, none, List, [], ◌∷◌, ◌++◌, take, drop,
  ◌==◌, Bool-cases, inl, inr, add64, append_assoc, append-nil, take-drop,
}
use konsan_net.Packet.Receiver.{Buffer}
use konsan_net.Packet.Stream.{ready}
use konsan_net.Packet.Sending.{
  Answer, Attempt, Outbox, Outcome, send_bytes, send_loop, send_data_list, next_buffer,
  put_off_buffer,
}

-- Answers without an error of the socket.
pub data Healthy : List Answer → Type 0 where
  done : Healthy []
  wrote : {n : ℕ} {script : List Answer} → Healthy script → Healthy (Answer.wrote n ∷ script)
  again : {script : List Answer} → Healthy script → Healthy (Answer.again ∷ script)
  interrupted : {script : List Answer} → Healthy script → Healthy (Answer.interrupted ∷ script)

-- What one buffer's loop did with the bytes `all`.
Took : List ℕ → Attempt → Type 0
Took all (Attempt.finished written script) = (written ≡ all) × Healthy script
Took all (Attempt.put_off written left script) = written ++ left ≡ all
Took all (Attempt.broken c t written script) = ⊥
Took all (Attempt.calling written) = Unit

send_bytes-Took :
    (script : List Answer) (written left : List ℕ)
    → Healthy script
    → Took (written ++ left) (send_bytes script written left)
unfolding send_bytes Took
send_bytes-Took script written [] w = (sym (append-nil written), w)
send_bytes-Took [] written (b ∷ bs) w = tt
send_bytes-Took (Answer.wrote n ∷ script) written (b ∷ bs) (Healthy.wrote w) =
    let front = take (suc n) (b ∷ bs) in
    let rest = drop (suc n) (b ∷ bs) in
    subst (λ all. Took all (send_bytes script (written ++ front) rest))
      (append_assoc written front rest ∙ ap (λ l. written ++ l) (take-drop (suc n) (b ∷ bs)))
      (send_bytes-Took script (written ++ front) rest w)
send_bytes-Took (Answer.again ∷ script) written (b ∷ bs) w = refl
send_bytes-Took (Answer.interrupted ∷ script) written (b ∷ bs) (Healthy.interrupted w) =
    send_bytes-Took script written (b ∷ bs) w
send_bytes-Took (Answer.reset ∷ script) written (b ∷ bs) w = elim w [ ]
send_bytes-Took (Answer.other_error ∷ script) written (b ∷ bs) w = elim w [ ]
send_bytes-Took (Answer.peer_closed ∷ script) written (b ∷ bs) w = elim w [ ]

-- The bytes that SendDataList may send.
unfoldable pub unsent : Outbox → List ℕ
unsent s = ready s.last_sent_packet_sequence_num s.send_buffers

-- How a call ends: all that may be sent was sent, or epoll was asked to tell, or that failed.
pub Settled : ℕ → Outbox → Type 0
Settled code t = (code ≡ 4) ⊎ ((code ≡ 0) × ((t.waits_writing ≡ true) ⊎ (unsent t ≡ [])))

-- The same stream, and a settled end.
unfoldable pub Kept : List ℕ → Outcome → Type 0
Kept all (Outcome.in_call t) = Unit
Kept all (Outcome.result code t) = (t.wire ++ unsent t ≡ all) × Settled code t

module _ (watched : Bool) (b : Buffer) (rest : List Buffer) (s : Outbox)
    (number : (b.sequence_num == add64 s.last_sent_packet_sequence_num 1) ≡ true) where
  abbrev stream : List ℕ
  stream = s.wire ++ (b.left ++ ready (add64 s.last_sent_packet_sequence_num 1) rest)

  put_off-Kept :
      (written bytes : List ℕ)
      → written ++ bytes ≡ b.left
      → Kept stream (put_off_buffer watched written bytes b rest s)
  unfolding put_off_buffer Kept unsent ready Settled
  put_off-Kept written bytes all =
      let later = ready (add64 s.last_sent_packet_sequence_num 1) rest in
      let same : (s.wire ++ written) ++ (bytes ++ later) ≡ stream =
        append_assoc s.wire written (bytes ++ later)
        ∙ ap (λ l. s.wire ++ l)
            (sym (append_assoc written bytes later) ∙ ap (λ l. l ++ later) all) in
      elim (Bool-cases watched) [
        | inl y ↦ rw y (rw number (same, inr (refl, inl refl)))
        | inr n ↦ rw n (rw number (same, inl refl))
      ]

  attempt-Kept :
      (script : List Answer) (a : Attempt)
      → send_bytes script [] b.left ≡ a
      → Took b.left a
      → ((written : List ℕ) (left : List Answer)
          → Healthy left
          → Kept
              ((s.wire ++ written) ++ ready (add64 s.last_sent_packet_sequence_num 1) rest)
              (send_loop watched left 0 none rest (next_buffer written none rest s)))
      → Kept stream (send_loop watched script 0 none (b ∷ rest) s)
  unfolding send_loop Took Kept
  attempt-Kept script (Attempt.finished written left) e (all, w) next =
      let later = ready (add64 s.last_sent_packet_sequence_num 1) rest in
      let run : send_loop watched script 0 none (b ∷ rest) s
          ≡ send_loop watched left 0 none rest (next_buffer written none rest s) =
        rw (number, e) refl in
      rw run (
        subst (λ l. Kept l (send_loop watched left 0 none rest (next_buffer written none rest s)))
          (append_assoc s.wire written later ∙ ap (λ l. s.wire ++ (l ++ later)) all)
          (next written left w))
  attempt-Kept script (Attempt.put_off written bytes left) e all next =
      let run : send_loop watched script 0 none (b ∷ rest) s
          ≡ put_off_buffer watched written bytes b rest s =
        rw (number, e) refl in
      rw run (put_off-Kept written bytes all)
  attempt-Kept script (Attempt.broken c t written left) e all next = absurd all
  attempt-Kept script (Attempt.calling written) e all next =
      let run : send_loop watched script 0 none (b ∷ rest) s
          ≡ Outcome.in_call (record s { wire = s.wire ++ written }) =
        rw (number, e) refl in
      rw run tt

send_loop-Kept :
    (watched : Bool) (script : List Answer) (bufs : List Buffer) (s : Outbox)
    → s.send_buffers ≡ bufs
    → Healthy script
    → Kept
        (s.wire ++ ready s.last_sent_packet_sequence_num bufs)
        (send_loop watched script 0 none bufs s)
unfolding send_loop Kept unsent ready next_buffer Settled
send_loop-Kept watched script [] s e w =
    let nothing : ready s.last_sent_packet_sequence_num s.send_buffers ≡ [] =
      ap (λ l. ready s.last_sent_packet_sequence_num l) e in
    (ap (λ l. s.wire ++ l) nothing, inr (refl, inr nothing))
send_loop-Kept watched script (b ∷ rest) s e w =
    elim (Bool-cases (b.sequence_num == add64 s.last_sent_packet_sequence_num 1)) [
      | inr gap ↦
          let nothing : ready s.last_sent_packet_sequence_num (b ∷ rest) ≡ [] = rw gap refl in
          let here = ap (λ l. ready s.last_sent_packet_sequence_num l) e in
          let run : send_loop watched script 0 none (b ∷ rest) s ≡ Outcome.result 0 s =
            rw gap refl in
          subst (λ o. Kept (s.wire ++ ready s.last_sent_packet_sequence_num (b ∷ rest)) o) (sym run)
            (ap (λ l. s.wire ++ l) here, inr (refl, inr (here ∙ nothing)))
      | inl number ↦
          let first : ready s.last_sent_packet_sequence_num (b ∷ rest)
              ≡ b.left ++ ready (add64 s.last_sent_packet_sequence_num 1) rest =
            rw number refl in
          subst (λ l. Kept (s.wire ++ l) (send_loop watched script 0 none (b ∷ rest) s)) (sym first)
            (attempt-Kept watched b rest s number script (send_bytes script [] b.left) refl
              (send_bytes-Took script [] b.left w)
              (λ written left v.
                send_loop-Kept watched left rest (next_buffer written none rest s) refl v))
    ]

-- While the socket has no error, SendDataList keeps the stream: what the socket took before and after,
-- with the consecutive packets that still wait, is the same bytes in the same order. It ends with all of
-- them sent, or epoll asked to tell when the socket can be written, or with -4.
pub send_data_list-Kept :
    (watched : Bool) (script : List Answer) (s t : Outbox) (code : ℕ)
    → Healthy script
    → send_data_list watched script s ≡ Outcome.result code t
    → (t.wire ++ unsent t ≡ s.wire ++ unsent s) × Settled code t
unfolding send_data_list Kept unsent
send_data_list-Kept watched script s t code w run =
    subst (λ o. Kept (s.wire ++ ready s.last_sent_packet_sequence_num s.send_buffers) o) run
      (send_loop-Kept watched script s.send_buffers s refl w)
