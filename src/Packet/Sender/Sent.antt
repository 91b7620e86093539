-- ===== src/Packet/Sender/Sent.antt =====
-- CXConnectionObject.cpp: a packet that SendAssembledPacket makes, where RecvPacket finds it.
use konsan_net.Prelude.{
  ℕ, zero, suc, ◌+◌, ◌^◌, ◌<◌, ◌≤◌, ◌≡◌, refl, sym, ap, ◌∙◌, true, false, List, [], ◌∷◌, ◌++◌,
  length, ltb, arith, add64, append_assoc, append-nil, ==_refl, length-append, take-append,
  drop-append, take_all,
}
use konsan_net.Packet.Header.{
  Header, Fits, header_len, max_chache_size, encode_header, decode_header, length-encode_header,
  decode_header-encode_header, sum_bytes, sum_bytes_bound, verify_packet_body_data,
}
use konsan_net.Packet.Receiver.{RecvResult, Surroundings, Delivery, Handled, handle_packet}
use konsan_net.Packet.Stream.{Cut, cut, judge, cut_body, open_packet, unpack, after}
use konsan_net.Packet.Sender.{Sender, assembled_header}

-- The header that is written fits its widths, and the body is one that RecvPacket takes.
pub record Sendable (s : Sender) (body : List ℕ) (orign_data_len : ℕ) : Type 0 where
  pub compress : s.compress_type < 256
  pub encrypt : s.encrypt_type < 256
  pub size : length body ≤ max_chache_size
  pub orign : orign_data_len < 2 ^ 32

abbrev pub wire : Sender → List ℕ → ℕ → List ℕ
wire s body orign_data_len = encode_header (assembled_header s body orign_data_len) ++ body

module _ (s : Sender) (body : List ℕ) (orign_data_len : ℕ)
    (ok : Sendable s body orign_data_len) where
  abbrev h : Header
  h = assembled_header s body orign_data_len

  h-Fits : Fits h
  unfolding assembled_header
  h-Fits =
      let size = ok.size in
      record {
        flag = omega arith;
        compress_flag = ok.compress;
        encrypt_flag = ok.encrypt;
        data_len = omega arith;
        check_sum = sum_bytes_bound 0 body (omega arith);
        orign_data_len = ok.orign;
      }

  pub assembled_header-Fits : Fits (assembled_header s body orign_data_len)
  assembled_header-Fits = h-Fits

  wire-header : (later : List ℕ) → decode_header (wire s body orign_data_len ++ later) ≡ h
  wire-header later =
      ap decode_header (append_assoc (encode_header h) body later)
      ∙ decode_header-encode_header h (body ++ later) h-Fits

  pub length-wire : length (wire s body orign_data_len) ≡ length body + header_len
  length-wire =
      let n = length-append (encode_header h) body in let m = length-encode_header h in omega arith

  -- RecvPacket cuts the packet off.
  pub cut-wire :
      (later : List ℕ)
      → cut true (wire s body orign_data_len ++ later)
        ≡ Cut.packet (wire s body orign_data_len) later
  unfolding cut judge cut_body assembled_header
  cut-wire later =
      let all = length-append (wire s body orign_data_len) later in
      let n = length-wire in
      let size = ok.size in
      let long : ltb (length (wire s body orign_data_len ++ later)) header_len ≡ false =
        ground arith in
      let fits : ltb max_chache_size (length body) ≡ false = ground arith in
      let whole : ltb (length (wire s body orign_data_len ++ later)) (length body + header_len)
          ≡ false =
        ground arith in
      rw
        (
          long,
          wire-header later,
          fits,
          whole,
          take-append (length body + header_len) (wire s body orign_data_len) later n,
          drop-append (length body + header_len) (wire s body orign_data_len) later n,
        )
        refl

  -- RecvPacket finds the check sum right.
  pub open_packet-wire :
      (ss : Surroundings) (n : ℕ)
      → open_packet ss (wire s body orign_data_len) n ≡ handle_packet ss h body n
  unfolding open_packet verify_packet_body_data assembled_header
  open_packet-wire ss n =
      let header : decode_header (wire s body orign_data_len) ≡ h =
        ap decode_header (sym (append-nil (wire s body orign_data_len))) ∙ wire-header [] in
      rw
        (
          header,
          drop-append header_len (encode_header h) body (length-encode_header h),
          take_all (length body) body (omega arith),
          ==_refl (sum_bytes 0 body),
        )
        refl

-- A packet that a receiver takes as the message `body`, whatever follows it.
pub record Opens (ss : Surroundings) (p body : List ℕ) : Type 0 where
  pub cuts : (later : List ℕ) → cut ss.has_memory (p ++ later) ≡ Cut.packet p later
  pub opens : (n : ℕ) → open_packet ss p n ≡ Handled.delivered (Delivery.message n body)

-- The messages of bodies, numbered from the one after n.
unfoldable pub messages : ℕ → List (List ℕ) → List Delivery
messages n [] = []
messages n (b ∷ bs) = Delivery.message (add64 n 1) b ∷ messages (add64 n 1) bs

unfoldable pub last_number : ℕ → List (List ℕ) → ℕ
last_number n [] = n
last_number n (b ∷ bs) = last_number (add64 n 1) bs

unfoldable pub stream : List (List ℕ) → List ℕ → List ℕ
stream [] partial = partial
stream (p ∷ ps) partial = p ++ stream ps partial

-- Packets and the messages that they are taken as.
unfoldable pub AllOpen : Surroundings → List (List ℕ) → List (List ℕ) → Type 0
AllOpen ss [] [] = Unit
AllOpen ss [] (b ∷ bs) = ⊥
AllOpen ss (p ∷ ps) [] = ⊥
AllOpen ss (p ∷ ps) (b ∷ bs) = Opens ss p b × AllOpen ss ps bs

-- The loop over a stream of such packets, of which the last is not whole yet.
pub unpack-stream :
    (fuel : ℕ) (ss : Surroundings) (ps bodies : List (List ℕ)) (partial : List ℕ) (n : ℕ)
    → AllOpen ss ps bodies
    → cut ss.has_memory partial ≡ Cut.waiting
    → length ps < fuel
    → unpack fuel ss (stream ps partial) n ≡ record {
      deliveries = messages n bodies;
      result = RecvResult.return_succeed;
      left = partial;
      sequence_num = last_number n bodies;
    }
unfolding unpack stream messages last_number AllOpen
unpack-stream zero ss ps bodies partial n all w enough = absurd (omega arith)
unpack-stream (suc fuel) ss [] [] partial n all w enough = rw (w, unpack) refl
unpack-stream (suc fuel) ss [] (b ∷ bs) partial n all w enough = absurd all
unpack-stream (suc fuel) ss (p ∷ ps) [] partial n all w enough = absurd all
unpack-stream (suc fuel) ss (p ∷ ps) (b ∷ bs) partial n (o, os) w enough =
    let first = o.cuts (stream ps partial) in
    let opened = o.opens (add64 n 1) in
    let one : unpack (suc fuel) ss (stream (p ∷ ps) partial) n
        ≡ after (Delivery.message (add64 n 1) b) (unpack fuel ss (stream ps partial) (add64 n 1)) =
      rw (first, opened, unpack) refl in
    one
    ∙ ap (λ u. after (Delivery.message (add64 n 1) b) u)
        (unpack-stream fuel ss ps bs partial (add64 n 1) os w (omega arith))
