-- ===== src/Packet/Requests/Creation.antt =====
-- CXRPCObjectClientInServer.cpp, SendPacketData, and CXConnectionObject.cpp, FreeSendingList: the numbers of
-- packets that were freed are never sent.
use konsan_net.Prelude.{
  ℕ, suc, ◌+◌, ◌^◌, ◌<◌, ◌≤◌, ◌≡◌, refl, ap, ◌∙◌, sym, subst, Bool, true, false, none, some, List,
  [], All, add64, Bool-cases, Option-cases, inl, inr, arith, find, string_key,
}
use Prim.Native.String.{String}
use konsan_net.Packet.Closing.{State, is_ending, is_closing, is_closed, is_established}
use konsan_net.Packet.Sender.{Sending, send_buffer}
use konsan_net.Packet.Sending.{Outbox, post_send}
use konsan_net.Packet.Requests.{
  RpcRequest, Proxy, ClientInServer, Network, push_request, posted, on_sending, send_packet,
  is_creating, async_connect, expect_reply, forget_reply, pop_request, free_sending_list, attach,
  take_back, on_sent, send_packet_data,
}
use konsan_net.Packet.Requests.Stalled.{Stalled, send_buffer-cur}
use konsan_net.Packet.Requests.Sends.{Sends, Sends-Stalled}

not_established :
    (st : State) → is_creating st ≡ true → (is_ending st ≡ false) × (is_established st ≡ false)
unfolding is_creating is_ending is_closing is_closed is_established
not_established State.creating h = (refl, refl)
not_established State.initialized h = absurd (cc)
not_established State.pending h = absurd (cc)
not_established State.established h = absurd (cc)
not_established State.closing h = absurd (cc)
not_established State.closed h = absurd (cc)

-- The packet of a connection that is being created goes into the list.
on_sending-listed :
    (n : Network) (s : Sending) (p q : Proxy) (done : Bool)
    → is_creating p.outbox.link.state ≡ true
    → on_sending n s p ≡ some (done, q)
    → (q.outbox.wire ≡ p.outbox.wire)
      × (q.outbox.last_sent_packet_sequence_num ≡ p.outbox.last_sent_packet_sequence_num)
      × (q.sender ≡ p.sender)
unfolding on_sending posted post_send
on_sending-listed n s p q done creating run =
    let below = not_established p.outbox.link.state creating in ground arith

-- What is left of a connection whose list was freed.
record Freed (p : Proxy) (left : ClientInServer) : Type 0 where
  connection : Proxy
  attached : left.attached_connection ≡ some connection
  outbox : connection.outbox ≡ record (p.outbox) { send_buffers = [] }
  cur : connection.sender.cur_sending_packet_sequence_num ≡ p.sender.cur_sending_packet_sequence_num

pop_request-attached_connection :
    (i : String) (o : ClientInServer)
    → (pop_request i o).1.attached_connection ≡ o.attached_connection
unfolding pop_request
pop_request-attached_connection i o = elim (Option-cases (find i o.requests)) [
  | inl e ↦ rw (e, pop_request) refl
  | inr (r, e) ↦ rw (e, pop_request) refl
]

forget_reply-outbox :
    (b : Bool) (i : String) (p : Proxy)
    → ((forget_reply b i p).outbox ≡ p.outbox) × ((forget_reply b i p).sender ≡ p.sender)
unfolding forget_reply
forget_reply-outbox true i p = (refl, refl)
forget_reply-outbox false i p = (refl, refl)

take_back-Freed :
    (i : String) (p q : Proxy) (o : ClientInServer)
    → q.outbox ≡ p.outbox
    → q.sender.cur_sending_packet_sequence_num ≡ p.sender.cur_sending_packet_sequence_num
    → Freed p (take_back i (free_sending_list q) o)
unfolding take_back free_sending_list attach
take_back-Freed i p q o outbox cur =
    let freed = forget_reply o.aligned_id_with_server i (free_sending_list q) in
    let (box, sender) = forget_reply-outbox o.aligned_id_with_server i (free_sending_list q) in
    record {
      connection = freed;
      attached = pop_request-attached_connection i (attach freed o);
      outbox = box ∙ ap {A = Outbox} {B = Outbox} (λ b. record b { send_buffers = [] }) outbox;
      cur = ap (λ s. s.cur_sending_packet_sequence_num) sender ∙ cur;
    }

on_sent-Freed :
    (h s : Bool) (i : String) (p : Proxy) (o left : ClientInServer)
    → on_sent h s i p o ≡ (12, left)
    → (is_creating p.outbox.link.state ≡ true) × Freed p left
unfolding on_sent async_connect
on_sent-Freed h true i p o left run = absurd (ground arith)
on_sent-Freed false false i p o left run = absurd (ground arith)
on_sent-Freed true false i p o left run = elim (Bool-cases (is_creating p.outbox.link.state)) [
  | inr n ↦ absurd (ground arith)
  | inl y ↦
      let silent = record p { sender = record (p.sender) { asynchronously_mes = false } } in
      let end : take_back i (free_sending_list silent) o ≡ left = ground arith in
      (y, subst (Freed p) end (take_back-Freed i p silent o refl refl))
]

-- SendPacket of a connection that is being created, which succeeds: the packet has the number that is counted.
created-listed :
    (n : Network) (code : ℕ) (i pb_data : List ℕ) (p q : Proxy)
    → is_creating p.outbox.link.state ≡ true
    → send_packet n code i pb_data p ≡ some (true, q)
    → (q.outbox.wire ≡ p.outbox.wire)
      × (q.outbox.last_sent_packet_sequence_num ≡ p.outbox.last_sent_packet_sequence_num)
      × (q.sender.cur_sending_packet_sequence_num
          ≡ add64 p.sender.cur_sending_packet_sequence_num 1)
unfolding send_packet
created-listed n code i pb_data p q creating run =
    let asked = record (p.sender) { request_id = i } in
    let sent = send_buffer n.facilities code none pb_data asked in
    elim (Bool-cases n.facilities.has_server) [
      | inr w ↦ absurd (ground arith)
      | inl y ↦
          let (wire, last, sender) =
            on_sending-listed n sent.1 (record p { sender = sent.0 }) q true creating
              (ground arith) in
          (
            wire,
            last,
            ap (λ s. s.cur_sending_packet_sequence_num) sender
                ∙ send_buffer-cur n code pb_data asked,
          )
    ]

expect_reply-outbox :
    (b : Bool) (i : String) (a : ℕ) (p : Proxy)
    → ((expect_reply b i a p).outbox ≡ p.outbox) × ((expect_reply b i a p).sender ≡ p.sender)
unfolding expect_reply
expect_reply-outbox true i a p = (refl, refl)
expect_reply-outbox false i a p = (refl, refl)

-- The connection of a request that was listed and then freed is stalled.
freed-Stalled :
    (v q : Proxy) (last : ℕ)
    → q.outbox ≡ record (v.outbox) { send_buffers = [] }
    → v.outbox.last_sent_packet_sequence_num ≡ last
    → last + 1 < q.sender.cur_sending_packet_sequence_num
    → All (λ t. last + 1 < t.0) q.preparing
    → Stalled q × (q.outbox.wire ≡ v.outbox.wire)
freed-Stalled v q last box same ahead prepared =
    let kept : q.outbox.last_sent_packet_sequence_num ≡ last =
      ap (λ b. b.last_sent_packet_sequence_num) box ∙ same in
    let empty : q.outbox.send_buffers ≡ [] = ap (λ b. b.send_buffers) box in
    (
      record {
        behind =
            subst (λ bs. All (λ b. q.outbox.last_sent_packet_sequence_num + 1 < b.sequence_num) bs)
              (sym empty) tt;
        prepared = subst (λ k. All (λ t. k + 1 < t.0) q.preparing) (sym kept) prepared;
        ahead = omega arith;
      },
      ap (λ b. b.wire) box,
    )

-- Where SendPacketData accepts a packet for a connection that is being created, but no task is had to create
-- it, it frees the list and the packet's number with it. Unless a CXTaskPrepareMessage still has the packet
-- that is next to be sent, none of `k` further packets of this connection reaches the wire then, and none that
-- such a task posts later, whatever becomes of its link.
pub failed_creation-Sends :
    (has_com_server has_task : Bool) (n : Network) (r : RpcRequest) (code k : ℕ) (pb_data : List ℕ)
    (o left : ClientInServer) (p q t : Proxy)
    → o.attached_connection ≡ some p
    → is_creating p.outbox.link.state ≡ true
    → p.outbox.last_sent_packet_sequence_num + 1 ≤ p.sender.cur_sending_packet_sequence_num
    → p.sender.cur_sending_packet_sequence_num + suc k < 2 ^ 64
    → send_packet_data has_com_server has_task n r code pb_data o ≡ some (12, left)
    → left.attached_connection ≡ some q
    → All (λ b. p.outbox.last_sent_packet_sequence_num + 1 < b.0) q.preparing
    → Sends k q t
    → t.outbox.wire ≡ p.outbox.wire
unfolding send_packet_data
failed_creation-Sends h s n r code k pb_data o left p q t attached creating counted small run now
      late sends =
    let asking = expect_reply o.aligned_id_with_server r.request_id o.address p in
    elim (Option-cases (send_packet n code r.request_id_bytes pb_data asking)) [
      | inl e ↦ absurd (ground arith)
      | inr ((false, v), e) ↦ absurd (ground arith)
      | inr ((true, v), e) ↦
          let end : on_sent h s r.request_id v (push_request r o) ≡ (12, left) = ground arith in
          let (state, f) = on_sent-Freed h s r.request_id v (push_request r o) left end in
          let (box, sender) =
            expect_reply-outbox o.aligned_id_with_server r.request_id o.address p in
          let listed =
            created-listed n code r.request_id_bytes pb_data asking v
              (subst {A = Outbox} (λ b. is_creating b.link.state ≡ true) (sym box) creating) e in
          let same : f.connection ≡ q = (let a = f.attached in ground arith) in
          let last = listed.1 ∙ ap (λ b. b.last_sent_packet_sequence_num) box in
          let cur = f.cur ∙ listed.2 ∙ ap (λ s. add64 s.cur_sending_packet_sequence_num 1) sender in
          let (stalled, wire) =
            freed-Stalled v f.connection p.outbox.last_sent_packet_sequence_num f.outbox last
              (omega arith)
              (subst (λ x. All (λ b. p.outbox.last_sent_packet_sequence_num + 1 < b.0) x.preparing)
                (sym same) late) in
          let (end_stalled, quiet, few) =
            Sends-Stalled k f.connection t stalled (omega arith)
              (subst (λ x. Sends k x t) (sym same) sends) in
          quiet ∙ wire ∙ listed.0 ∙ ap (λ b. b.wire) box
    ]
