-- ===== src/Packet/Sender/Delivered.antt =====
-- CXConnectionObject.cpp: SendPacket on one side and RecvPacket on the other.
use konsan_net.Prelude.{
  ℕ, ◌+◌, ◌^◌, ◌<◌, ◌≤◌, ◌≡◌, refl, ap, ◌∙◌, subst, true, false, Option, some, List, length, ◌==◌,
  ◌&&◌, inl, inr, ==_refl,
}
use konsan_net.Packet.Header.{header_len, max_chache_size}
use konsan_net.Packet.Receiver.{
  Receiver, Received, RecvResult, Surroundings, parse_cache_len, parse_output_len, Delivery,
  handle_packet, handle_coded, parse_message, recv_loop,
}
use konsan_net.Packet.Stream.{Cut, cut, unpack}
use konsan_net.Packet.Stream.Handling.{observed}
use konsan_net.Packet.Stream.Loop.{Ready, ready_bytes, unpack_ready, recv_loop-Refines}
use konsan_net.Packet.Sender.{
  Sender, Facilities, Request, prepare_cache_len, Sending, send_packet, sent_body, numbered,
  assembled_header, prepared_and_send_packet, send_assembled_packet,
}
use konsan_net.Packet.Sender.Posted.{
  send_packet-posted, prepared_and_send_packet-posted, send_assembled_packet-posted,
}
use konsan_net.Packet.Sender.Sent.{
  Sendable, wire, cut-wire, open_packet-wire, Opens, AllOpen, messages, last_number, stream,
  unpack-stream,
}

-- The receiver's side of a connection that parses at once.
pub record Parses (ss : Surroundings) : Type 0 where
  pub memory : ss.has_memory ≡ true
  pub server : ss.has_server ≡ true
  pub parser : ss.has_parser ≡ true
  pub at_once : ss.async_parse_data ≡ false

-- The CXDataParserImpl of the receiver undoes what the sender's makes of a body, with the buffers that
-- both have.
unfoldable pub Undone : Facilities → Surroundings → ℕ → ℕ → List ℕ → Type 0
Undone f ss encrypt compress body =
    (prepared : List ℕ)
    → f.prepare_data encrypt compress body (prepare_cache_len (length body))
        (prepare_cache_len (length body))
      ≡ some prepared
    → ss.parse_data encrypt compress prepared (parse_output_len (length body))
        (parse_cache_len (length body))
      ≡ some body

module _ (ss : Surroundings) (peers : Parses ss) (s : Sender) where
  pub plain-Opens :
      (body : List ℕ)
      → (s.encrypt_type == 0 && s.compress_type == 0) ≡ true
      → Sendable s body (length body)
      → Opens ss (wire s body (length body)) body
  unfolding handle_packet assembled_header
  plain-Opens body plain ok = record {
    cuts = λ later. rw (peers.memory) (cut-wire s body (length body) ok later);
    opens = λ n. open_packet-wire s body (length body) ok ss n ∙ rw plain refl;
  }

  pub coded-Opens :
      (body prepared : List ℕ)
      → ss.parse_data s.encrypt_type s.compress_type prepared
          (parse_output_len (length body))
          (parse_cache_len (length body))
        ≡ some body
      → (s.encrypt_type == 0 && s.compress_type == 0) ≡ false
      → Sendable s prepared (length body)
      → Opens ss (wire s prepared (length body)) body
  unfolding handle_packet handle_coded parse_message assembled_header
  coded-Opens body prepared undone coded ok = record {
    cuts = λ later. rw (peers.memory) (cut-wire s prepared (length body) ok later);
    opens = λ n.
        open_packet-wire s prepared (length body) ok ss n
        ∙ rw
            (
              coded,
              peers.parser,
              peers.at_once,
              peers.server,
              peers.memory,
              undone,
              ==_refl (length body),
            )
            refl;
  }

module _ (f : Facilities) (ss : Surroundings) (peers : Parses ss) (s : Sender) where
  -- What one packet is sent as.
  prepared_and_send_packet-Opens :
      (num k : ℕ) (body p : List ℕ)
      → Undone f ss s.encrypt_type s.compress_type body
      → (s.encrypt_type == 0 && s.compress_type == 0) ≡ false
      → prepared_and_send_packet f s num body ≡ Sending.posted k p
      → s.encrypt_type < 256
      → s.compress_type < 256
      → length p ≤ max_chache_size + header_len
      → length body < 2 ^ 32
      → Opens ss p body
  unfolding Undone
  prepared_and_send_packet-Opens num k body p undoes coded run encrypt compress size orign =
      let (prepared, e, sent) = prepared_and_send_packet-posted f s num k body p run in
      let (same, small) = send_assembled_packet-posted s num k prepared p (length body) sent size in
      subst (λ q. Opens ss q body) same
        (coded-Opens ss peers s body prepared (undoes prepared e) coded
          (record { compress = compress; encrypt = encrypt; size = small; orign = orign }))

  send_assembled_packet-Opens :
      (num k : ℕ) (body p : List ℕ)
      → (s.encrypt_type == 0 && s.compress_type == 0) ≡ true
      → send_assembled_packet s num body (length body) ≡ Sending.posted k p
      → s.encrypt_type < 256
      → s.compress_type < 256
      → length p ≤ max_chache_size + header_len
      → length body < 2 ^ 32
      → Opens ss p body
  send_assembled_packet-Opens num k body p plain run encrypt compress size orign =
      let (same, small) = send_assembled_packet-posted s num k body p (length body) run size in
      subst (λ q. Opens ss q body) same
        (plain-Opens ss peers s body plain
          (record { compress = compress; encrypt = encrypt; size = small; orign = orign }))

pub send_packet-Opens :
    (f : Facilities) (ss : Surroundings) (code : ℕ) (mes : Option Request) (bytes p : List ℕ)
    (num : ℕ) (s t : Sender)
    → Parses ss
    → Undone f ss s.encrypt_type s.compress_type (sent_body s code mes bytes)
    → send_packet f code mes bytes s ≡ (t, Sending.posted num p)
    → s.encrypt_type < 256
    → s.compress_type < 256
    → length p ≤ max_chache_size + header_len
    → length (sent_body s code mes bytes) < 2 ^ 32
    → Opens ss p (sent_body s code mes bytes)
unfolding numbered
send_packet-Opens f ss code mes bytes p num s t peers undoes run encrypt compress size orign =
    let n = numbered s in
    let seq = s.cur_sending_packet_sequence_num in
    let body = sent_body s code mes bytes in
    elim (send_packet-posted f code num mes bytes p s t run) [
      | inl (plain, sent) ↦
          send_assembled_packet-Opens f ss peers n seq num body p plain sent encrypt compress size
            orign
      | inr (coded, sent) ↦
          prepared_and_send_packet-Opens f ss peers n seq num body p undoes coded sent encrypt
            compress size orign
    ]

no_fault : (e : RecvResult) → observed e ≡ RecvResult.return_succeed → e ≡ RecvResult.return_succeed
unfolding observed
no_fault RecvResult.return_succeed h = refl
no_fault RecvResult.invalid_parameter h = absurd (cc)
no_fault RecvResult.no_memory h = absurd (cc)
no_fault RecvResult.bad_packet h = absurd (cc)
no_fault RecvResult.parse_failed h = absurd (cc)
no_fault RecvResult.no_parser h = absurd (cc)
no_fault RecvResult.fault h = absurd (cc)
no_fault RecvResult.out_of_fuel h = absurd (cc)

-- What a receiver holds after it took messages: it succeeded, has the rest of the stream, and goes on
-- with the number after the last message.
pub record Took (g : Received) (ds : List Delivery) (partial : List ℕ) (n : ℕ) : Type 0 where
  pub deliveries : g.deliveries ≡ ds
  pub result : g.result ≡ RecvResult.return_succeed
  pub left : ready_bytes g.receiver ≡ partial
  pub sequence_num : g.receiver.last_unpacked_message_sequence_num ≡ n

-- Where the bytes that are ready are packets that open and then a packet that is not whole, RecvPacket
-- delivers the messages of all of them, in order and with consecutive numbers, and keeps the rest,
-- however the buffers cut the bytes.
pub recv_loop-Took :
    (fuel : ℕ) (ss : Surroundings) (r : Receiver) (ps bodies : List (List ℕ)) (partial : List ℕ)
    → Ready r
    → AllOpen ss ps bodies
    → cut ss.has_memory partial ≡ Cut.waiting
    → ready_bytes r ≡ stream ps partial
    → length ps < fuel
    → Took
        (recv_loop fuel ss r)
        (messages r.last_unpacked_message_sequence_num bodies)
        partial
        (last_number r.last_unpacked_message_sequence_num bodies)
unfolding unpack_ready ready_bytes
recv_loop-Took fuel ss r ps bodies partial ok all w bytes enough =
    let n = r.last_unpacked_message_sequence_num in
    let refines = recv_loop-Refines fuel ss r ok in
    let run =
      ap (λ bs. unpack fuel ss bs n) bytes
      ∙ unpack-stream fuel ss ps bodies partial n all w enough in
    record {
      deliveries = refines.deliveries ∙ ap (λ u. u.deliveries) run;
      result = no_fault (recv_loop fuel ss r).result (refines.result ∙ ap (λ u. u.result) run);
      left = refines.left ∙ ap (λ u. u.left) run;
      sequence_num = refines.sequence_num ∙ ap (λ u. u.sequence_num) run;
    }
