-- ===== src/Packet/Sender/Posted.antt =====
-- CXConnectionObject.cpp, SendPacket: how a packet comes to be posted.
use konsan_net.Prelude.{
  ℕ, ◌+◌, ◌≤◌, ◌≡◌, ◌⊎◌, ap, true, false, Option, some, List, length, length-append, ◌==◌, ◌&&◌,
  arith,
}
use konsan_net.Packet.Header.{header_len, max_chache_size, encode_header, length-encode_header}
use konsan_net.Packet.Sender.{
  Sender, Facilities, Request, Sending, send_packet, send_buffer, sent_body, numbered,
  prepared_and_send_packet, send_assembled_packet, prepare_cache_len, assembled_header,
}
use konsan_net.Packet.Sender.Sent.{wire}

pub send_packet-posted :
    (f : Facilities) (code num : ℕ) (mes : Option Request) (bytes p : List ℕ) (s t : Sender)
    → send_packet f code mes bytes s ≡ (t, Sending.posted num p)
    → let n = numbered s in
      let seq = s.cur_sending_packet_sequence_num in
      let body = sent_body s code mes bytes in
      ((s.encrypt_type == 0 && s.compress_type == 0) ≡ true
        × (send_assembled_packet n seq body (length body) ≡ Sending.posted num p))
      ⊎ ((s.encrypt_type == 0 && s.compress_type == 0) ≡ false
          × (prepared_and_send_packet f n seq body ≡ Sending.posted num p))
unfolding send_packet send_buffer numbered
send_packet-posted f code num mes bytes p s t run = ground arith

pub prepared_and_send_packet-posted :
    (f : Facilities) (s : Sender) (num k : ℕ) (body p : List ℕ)
    → prepared_and_send_packet f s num body ≡ Sending.posted k p
    → (prepared : List ℕ) × (f.prepare_data s.encrypt_type s.compress_type body
          (prepare_cache_len (length body))
          (prepare_cache_len (length body))
        ≡ some prepared)
      × (send_assembled_packet s num prepared (length body) ≡ Sending.posted k p)
unfolding prepared_and_send_packet
prepared_and_send_packet-posted f s num k body p run = ground arith

-- The packet is the header with the body, and a packet that is small enough has a body that is.
pub send_assembled_packet-posted :
    (s : Sender) (num k : ℕ) (body p : List ℕ) (orign_data_len : ℕ)
    → send_assembled_packet s num body orign_data_len ≡ Sending.posted k p
    → length p ≤ max_chache_size + header_len
    → (wire s body orign_data_len ≡ p) × (length body ≤ max_chache_size)
unfolding send_assembled_packet
send_assembled_packet-posted s num k body p orign_data_len run size =
    let same : wire s body orign_data_len ≡ p = cc in
    let n = length-append (encode_header (assembled_header s body orign_data_len)) body in
    let m = length-encode_header (assembled_header s body orign_data_len) in
    let l = ap {A = List ℕ} (λ bs. length bs) same in (same, omega arith)
