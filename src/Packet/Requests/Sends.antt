-- ===== src/Packet/Requests/Sends.antt =====
-- CXRPCObjectClientInServer.cpp and CXConnectionObject.cpp: a connection whose next packet was freed stays
-- stalled, whatever is sent over it.
use konsan_net.Prelude.{
  ℕ, suc, ◌+◌, ◌^◌, ◌<◌, ◌≤◌, ◌≡◌, refl, ap, ◌∙◌, subst, Bool, some, List, [], ◌∷◌, ◌++◌, arith,
  All, string_key,
}
use konsan_net.Packet.Closing.{Link}
use konsan_net.Packet.Sender.{prepared_and_send_packet}
use konsan_net.Packet.Requests.{Proxy, Network, on_sending, send_packet}
use konsan_net.Packet.Requests.Stalled.{
  Stalled, on_sending-Still, prepared-Numbered, Still-Stalled, send_packet-Stalled,
}

All-before :
    {A : Type 0} (P : A → Type 0) (xs : List A) (y : A) (ys : List A)
    → All P (xs ++ y ∷ ys)
    → P y × All P (xs ++ ys)
All-before P [] y ys (a, rest) = (a, rest)
All-before P (x ∷ xs) y ys (a, rest) =
    let (b, others) = All-before P xs y ys rest in (b, (a, others))

-- A task prepares its body and posts it, or fails.
task-Stalled :
    (n : Network) (num : ℕ) (body : List ℕ) (before after : List (ℕ × List ℕ)) (p q : Proxy)
    (done : Bool)
    → Stalled p
    → p.sender.cur_sending_packet_sequence_num < 2 ^ 64
    → p.preparing ≡ before ++ (num, body) ∷ after
    → on_sending n
        (prepared_and_send_packet n.facilities p.sender num body)
        (record p { preparing = before ++ after })
      ≡ some (done, q)
    → Stalled q × (q.outbox.wire ≡ p.outbox.wire) × (q.sender ≡ p.sender)
task-Stalled n num body before after p q done stalled small has run =
    let ahead = stalled.ahead in
    let (late, others) =
      All-before (λ t. p.outbox.last_sent_packet_sequence_num + 1 < t.0) before (num, body) after
        (subst (λ ts. All (λ t. p.outbox.last_sent_packet_sequence_num + 1 < t.0) ts) has
          stalled.prepared) in
    let (still, sender) =
      on_sending-Still n (prepared_and_send_packet n.facilities p.sender num body)
        (record p { preparing = before ++ after }) q done num
        (record { small = omega arith; listed = stalled.behind; prepared = others }) late
        (prepared-Numbered n p.sender num body) run in
    let cur = ap (λ s. s.cur_sending_packet_sequence_num) sender in
    (
      Still-Stalled (record p { preparing = before ++ after }) q still (omega arith),
      still.0,
      sender,
    )

-- What happens to a connection: packets are sent, as many as the number says, whatever the network answers
-- and whether they succeed, a CXTaskPrepareMessage prepares and posts its packet, and its link changes.
pub data Sends : ℕ → Proxy → Proxy → Type 0 where
  start : {p : Proxy} → Sends 0 p p
  sent :
      {k : ℕ} {p q r : Proxy} (n : Network) (code : ℕ) (i pb_data : List ℕ) (done : Bool)
      → Sends k p q
      → send_packet n code i pb_data q ≡ some (done, r)
      → Sends (suc k) p r
  prepared :
      {k : ℕ} {p q r : Proxy} (n : Network) (num : ℕ) (body : List ℕ)
      (before after : List (ℕ × List ℕ)) (done : Bool)
      → Sends k p q
      → q.preparing ≡ before ++ (num, body) ∷ after
      → on_sending n
          (prepared_and_send_packet n.facilities q.sender num body)
          (record q { preparing = before ++ after })
        ≡ some (done, r)
      → Sends k p r
  linked :
      {k : ℕ} {p q : Proxy} (l : Link)
      → Sends k p q
      → Sends k p (record q { outbox = record (q.outbox) { link = l } })

pub Sends-Stalled :
    (k : ℕ) (p q : Proxy)
    → Stalled p
    → p.sender.cur_sending_packet_sequence_num + k < 2 ^ 64
    → Sends k p q
    → Stalled q
      × (q.outbox.wire ≡ p.outbox.wire)
      × (q.sender.cur_sending_packet_sequence_num ≤ p.sender.cur_sending_packet_sequence_num + k)
Sends-Stalled k p q stalled small Sends.start = (stalled, refl, omega arith)
Sends-Stalled k p r stalled small (Sends.sent {q = q} n code i pb_data done more run) =
    let (before, quiet, few) = Sends-Stalled _ p q stalled (omega arith) more in
    let (after, still, one) =
      send_packet-Stalled n code i pb_data q r done before (omega arith) run in
    (after, still ∙ quiet, omega arith)
Sends-Stalled k p r stalled small
      (Sends.prepared {q = q} n num body before after done more has run) =
    let (first, quiet, few) = Sends-Stalled k p q stalled small more in
    let (last, still, sender) =
      task-Stalled n num body before after q r done first (omega arith) has run in
    let cur = ap (λ s. s.cur_sending_packet_sequence_num) sender in
    (last, still ∙ quiet, omega arith)
Sends-Stalled k p r stalled small (Sends.linked {q = q} l more) =
    let (before, quiet, few) = Sends-Stalled k p q stalled small more in
    (
      record { behind = before.behind; prepared = before.prepared; ahead = before.ahead },
      quiet,
      few,
    )
