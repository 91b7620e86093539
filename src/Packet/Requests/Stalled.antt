-- ===== src/Packet/Requests/Stalled.antt =====
-- CXRPCObjectClientInServer.cpp, SendPacketData, and CXConnectionObject.cpp, FreeSendingList: the numbers of
-- packets that were freed are never sent.
use konsan_net.Prelude.{
  ℕ, ◌+◌, ◌^◌, ◌<◌, ◌≤◌, ◌⊎◌, ◌≡◌, refl, ap, ◌∙◌, sym, subst, Bool, false, none, some, List, [],
  ◌∷◌, ◌++◌, All-append, ◌==◌, add64, Bool-cases, inl, inr, arith, All, ltb, string_key,
}
use konsan_net.Packet.Receiver.{Buffer, push_buffer}
use konsan_net.Packet.Sender.{
  Sending, Sender, send_buffer, numbered, prepared_and_send_packet, send_assembled_packet,
}
use konsan_net.Packet.Sending.{Answer, Outbox, Outcome, post_send, send_loop, send_data_list}
use konsan_net.Packet.Requests.{Proxy, Network, posted, on_sending, send_packet}

-- The next packet that may be sent is neither in the list, nor prepared by a task, nor the next to be made.
pub record Stalled (p : Proxy) : Type 0 where
  pub behind :
      All (λ b. p.outbox.last_sent_packet_sequence_num + 1 < b.sequence_num) p.outbox.send_buffers
  pub prepared : All (λ t. p.outbox.last_sent_packet_sequence_num + 1 < t.0) p.preparing
  pub ahead : p.outbox.last_sent_packet_sequence_num + 1 < p.sender.cur_sending_packet_sequence_num

push_buffer-behind :
    (k : ℕ) (b : Buffer) (bs : List Buffer)
    → k < b.sequence_num
    → All (λ x. k < x.sequence_num) bs
    → All (λ x. k < x.sequence_num) (push_buffer b bs)
unfolding push_buffer
push_buffer-behind k b [] h a = (h, tt)
push_buffer-behind k b (x ∷ []) h a = elim (Bool-cases (ltb b.sequence_num x.sequence_num)) [
  | inl e ↦ rw (e, push_buffer) (h, a)
  | inr e ↦ elim (Bool-cases (ltb x.sequence_num b.sequence_num)) [
    | inl f ↦ rw (e, f, push_buffer) (a.0, (h, tt))
    | inr f ↦ rw (e, f, push_buffer) a
  ]
]
push_buffer-behind k b (x ∷ y ∷ ys) h a = elim (Bool-cases (ltb b.sequence_num x.sequence_num)) [
  | inl e ↦ rw (e, push_buffer) (h, a)
  | inr e ↦ rw (e, push_buffer) (a.0, push_buffer-behind k b (y ∷ ys) h a.1)
]

send_loop-gap :
    (watched : Bool) (script : List Answer) (bs : List Buffer) (s : Outbox)
    → s.last_sent_packet_sequence_num + 1 < 2 ^ 64
    → All (λ b. s.last_sent_packet_sequence_num + 1 < b.sequence_num) bs
    → send_loop watched script 0 none bs s ≡ Outcome.result 0 s
unfolding send_loop
send_loop-gap watched script [] s small a = refl
send_loop-gap watched script (b ∷ bs) s small a =
    let behind = a.0 in
    let other : (b.sequence_num == add64 s.last_sent_packet_sequence_num 1) ≡ false =
      ground arith in
    rw (other, send_loop) refl

pub send_buffer-cur :
    (n : Network) (code : ℕ) (pb_data : List ℕ) (s : Sender)
    → (send_buffer n.facilities code none pb_data s).0.cur_sending_packet_sequence_num
      ≡ add64 s.cur_sending_packet_sequence_num 1
unfolding send_buffer numbered
send_buffer-cur n code pb_data s = ground arith

-- The counters and the wire of a proxy connection.
abbrev pub Still : Proxy → Proxy → Type 0
Still p q =
    (q.outbox.wire ≡ p.outbox.wire)
    × (q.outbox.last_sent_packet_sequence_num ≡ p.outbox.last_sent_packet_sequence_num)
    × All (λ b. p.outbox.last_sent_packet_sequence_num + 1 < b.sequence_num) q.outbox.send_buffers
    × All (λ t. p.outbox.last_sent_packet_sequence_num + 1 < t.0) q.preparing

-- Nothing that the connection has may be sent next.
pub record Behind (p : Proxy) : Type 0 where
  pub small : p.outbox.last_sent_packet_sequence_num + 1 < 2 ^ 64
  pub listed :
      All (λ b. p.outbox.last_sent_packet_sequence_num + 1 < b.sequence_num) p.outbox.send_buffers
  pub prepared : All (λ t. p.outbox.last_sent_packet_sequence_num + 1 < t.0) p.preparing

posted-Still :
    (n : Network) (b : Buffer) (p q : Proxy) (done : Bool)
    → Behind p
    → p.outbox.last_sent_packet_sequence_num + 1 < b.sequence_num
    → posted (post_send n.has_kernel n.watched n.script b p.outbox) p ≡ some (done, q)
    → Still p q × (q.sender ≡ p.sender)
unfolding posted post_send send_data_list
posted-Still n b p q done w new run =
    let pushed = record (p.outbox) { send_buffers = push_buffer b p.outbox.send_buffers } in
    let more =
      push_buffer-behind (p.outbox.last_sent_packet_sequence_num + 1) b p.outbox.send_buffers new
        w.listed in
    let quiet = send_loop-gap n.watched n.script pushed.send_buffers pushed w.small more in
    let ends : (p ≡ q) ⊎ (record p { outbox = pushed } ≡ q) = ground arith in
    elim ends [
      | inl e ↦
          subst (λ x. Still p x × (x.sender ≡ p.sender)) e
            ((refl, refl, w.listed, w.prepared), refl)
      | inr e ↦
          subst (λ x. Still p x × (x.sender ≡ p.sender)) e ((refl, refl, more, w.prepared), refl)
    ]

-- The number of a packet, or of a body that a task prepares, if there is one.
abbrev pub Numbered : Sending → ℕ → Type 0
Numbered s cur =
    ((num : ℕ) (packet : List ℕ) → s ≡ Sending.posted num packet → num ≡ cur)
    × ((num : ℕ) (body : List ℕ) → s ≡ Sending.prepare_task num body → num ≡ cur)

pub on_sending-Still :
    (n : Network) (s : Sending) (p q : Proxy) (done : Bool) (cur : ℕ)
    → Behind p
    → p.outbox.last_sent_packet_sequence_num + 1 < cur
    → Numbered s cur
    → on_sending n s p ≡ some (done, q)
    → Still p q × (q.sender ≡ p.sender)
unfolding on_sending
on_sending-Still n Sending.refused p q done cur w new number run =
    let e : p ≡ q = ground arith in
    subst (λ x. Still p x × (x.sender ≡ p.sender)) e ((refl, refl, w.listed, w.prepared), refl)
on_sending-Still n (Sending.prepare_task num body) p q done cur w new number run =
    let e : record p { preparing = p.preparing ++ (num, body) ∷ [] } ≡ q = ground arith in
    let same = number.1 num body refl in
    let all =
      All-append (λ t. p.outbox.last_sent_packet_sequence_num + 1 < t.0) p.preparing
        ((num, body) ∷ []) w.prepared ((omega arith), tt) in
    subst (λ x. Still p x × (x.sender ≡ p.sender)) e ((refl, refl, w.listed, all), refl)
on_sending-Still n (Sending.posted num packet) p q done cur w new number run =
    let same = number.0 num packet refl in
    posted-Still n (record { sequence_num = num; left = packet }) p q done w (omega arith) run

-- A packet, and a body that a task prepares, has the number that the connection counts.
send_buffer-Numbered :
    (n : Network) (code : ℕ) (pb_data : List ℕ) (s : Sender)
    → Numbered (send_buffer n.facilities code none pb_data s).1 s.cur_sending_packet_sequence_num
unfolding send_buffer numbered prepared_and_send_packet send_assembled_packet
send_buffer-Numbered n code pb_data s = (λ num packet e. ground arith, λ num body e. ground arith)

pub prepared-Numbered :
    (n : Network) (s : Sender) (num : ℕ) (body : List ℕ)
    → Numbered (prepared_and_send_packet n.facilities s num body) num
unfolding prepared_and_send_packet send_assembled_packet
prepared-Numbered n s num body = (λ k packet e. ground arith, λ k rest e. ground arith)

-- What stays still stays stalled.
pub Still-Stalled :
    (p q : Proxy)
    → Still p q
    → p.outbox.last_sent_packet_sequence_num + 1 < q.sender.cur_sending_packet_sequence_num
    → Stalled q
Still-Stalled p q still ahead =
    let last = still.1 in
    record {
      behind =
          subst (λ k. All (λ b. k + 1 < b.sequence_num) q.outbox.send_buffers) (sym still.1)
            still.2;
      prepared = subst (λ k. All (λ t. k + 1 < t.0) q.preparing) (sym still.1) still.3;
      ahead = omega arith;
    }

pub send_packet-Stalled :
    (n : Network) (code : ℕ) (i pb_data : List ℕ) (p q : Proxy) (done : Bool)
    → Stalled p
    → p.sender.cur_sending_packet_sequence_num + 1 < 2 ^ 64
    → send_packet n code i pb_data p ≡ some (done, q)
    → Stalled q
      × (q.outbox.wire ≡ p.outbox.wire)
      × (q.sender.cur_sending_packet_sequence_num ≤ p.sender.cur_sending_packet_sequence_num + 1)
unfolding send_packet
send_packet-Stalled n code i pb_data p q done stalled small run =
    let asked = record (p.sender) { request_id = i } in
    let sent = send_buffer n.facilities code none pb_data asked in
    let ahead = stalled.ahead in
    let behind = stalled.behind in
    let prepared = stalled.prepared in
    elim (Bool-cases n.facilities.has_server) [
      | inr w ↦
          let e : record p { sender = asked } ≡ q = ground arith in
          subst
            (λ x.
              Stalled x
              × (x.outbox.wire ≡ p.outbox.wire)
              × (x.sender.cur_sending_packet_sequence_num
                  ≤ p.sender.cur_sending_packet_sequence_num + 1))
            e (record { behind = behind; prepared = prepared; ahead = ahead }, refl, omega arith)
      | inl y ↦
          let (still, sender) =
            on_sending-Still n sent.1 (record p { sender = sent.0 }) q done
              p.sender.cur_sending_packet_sequence_num
              (record { small = omega arith; listed = behind; prepared = prepared }) ahead
              (send_buffer-Numbered n code pb_data asked) (ground arith) in
          let next =
            ap (λ s. s.cur_sending_packet_sequence_num) sender
            ∙ send_buffer-cur n code pb_data asked in
          (Still-Stalled (record p { sender = sent.0 }) q still (omega arith), still.0, omega arith)
    ]
