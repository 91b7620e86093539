-- ===== src/Packet/Stream/Handling.antt =====
-- CXConnectionObject.cpp, RecvPacket: what is done with one packet, and how it is refused.
use konsan_net.Prelude.{
  ℕ, ◌≡◌, refl, sym, ap, ◌∙◌, Bool, true, false, List, ◌==◌, ◌&&◌, Bool-cases, Option-cases, inl,
  inr, drop,
}
use konsan_net.Packet.Header.{Header, header_len, decode_header, verify_packet_body_data}
use konsan_net.Packet.Receiver.{
  RecvResult, Surroundings, Handled, handle_packet, handle_coded, parse_message,
}
use konsan_net.Packet.Stream.{open_packet}

-- The result without the difference whether the log line of a wrong check sum could be written.
unfoldable pub observed : RecvResult → RecvResult
observed RecvResult.fault = RecvResult.bad_packet
observed RecvResult.return_succeed = RecvResult.return_succeed
observed RecvResult.invalid_parameter = RecvResult.invalid_parameter
observed RecvResult.no_memory = RecvResult.no_memory
observed RecvResult.bad_packet = RecvResult.bad_packet
observed RecvResult.parse_failed = RecvResult.parse_failed
observed RecvResult.no_parser = RecvResult.no_parser
observed RecvResult.out_of_fuel = RecvResult.out_of_fuel

-- The two results that no packet is refused with.
unfoldable pub is_foreign : RecvResult → Bool
is_foreign RecvResult.fault = true
is_foreign RecvResult.out_of_fuel = true
is_foreign RecvResult.return_succeed = false
is_foreign RecvResult.invalid_parameter = false
is_foreign RecvResult.no_memory = false
is_foreign RecvResult.bad_packet = false
is_foreign RecvResult.parse_failed = false
is_foreign RecvResult.no_parser = false

unfoldable pub refuses_foreign : Handled → Bool
refuses_foreign (Handled.delivered d) = false
refuses_foreign (Handled.refused e) = is_foreign e

handle_coded-is_foreign :
    (s : Surroundings) (h : Header) (body : List ℕ) (n : ℕ)
    → refuses_foreign (handle_coded s h body n) ≡ false
unfolding refuses_foreign is_foreign handle_coded parse_message
handle_coded-is_foreign s h body n = elim (Bool-cases s.has_parser) [
  | inr p ↦ rw p refl
  | inl p ↦ elim (Bool-cases s.async_parse_data) [
    | inl a ↦ elim (Bool-cases s.has_task) [ inl t ↦ rw (p, a, t) refl | inr t ↦ rw (p, a, t) refl ]
    | inr a ↦ elim (Option-cases (parse_message s h body)) [
      | inl m ↦ rw (p, a, m) refl
      | inr (x, m) ↦ rw (p, a, m) refl
    ]
  ]
]

handle_packet-is_foreign :
    (s : Surroundings) (h : Header) (body : List ℕ) (n : ℕ)
    → refuses_foreign (handle_packet s h body n) ≡ false
unfolding refuses_foreign handle_packet
handle_packet-is_foreign s h body n =
    elim (Bool-cases (h.encrypt_flag == 0 && h.compress_flag == 0)) [
      | inl c ↦ rw c refl
      | inr c ↦ rw c (handle_coded-is_foreign s h body n)
    ]

own_observed : (e : RecvResult) → is_foreign e ≡ false → observed e ≡ e
unfolding is_foreign observed
own_observed RecvResult.fault h = absurd (cc)
own_observed RecvResult.out_of_fuel h = absurd (cc)
own_observed RecvResult.return_succeed h = refl
own_observed RecvResult.invalid_parameter h = refl
own_observed RecvResult.no_memory h = refl
own_observed RecvResult.bad_packet h = refl
own_observed RecvResult.parse_failed h = refl
own_observed RecvResult.no_parser h = refl

-- Only the check of the sum can fault.
pub handle_packet-observed :
    (s : Surroundings) (h : Header) (body : List ℕ) (n : ℕ) (e : RecvResult)
    → handle_packet s h body n ≡ Handled.refused e
    → observed e ≡ e
unfolding refuses_foreign
handle_packet-observed s h body n e r =
    own_observed e (ap refuses_foreign (sym r) ∙ handle_packet-is_foreign s h body n)

-- No packet is refused for fuel.
pub open_packet-is_foreign :
    (s : Surroundings) (bytes : List ℕ) (n : ℕ) (e : RecvResult)
    → open_packet s bytes n ≡ Handled.refused e
    → is_foreign e ≡ false
unfolding refuses_foreign open_packet is_foreign
open_packet-is_foreign s bytes n e r =
    let own : refuses_foreign (open_packet s bytes n) ≡ false =
      elim (Bool-cases (verify_packet_body_data (decode_header bytes) (drop header_len bytes))) [
        | inl good ↦
            rw good (handle_packet-is_foreign s (decode_header bytes) (drop header_len bytes) n)
        | inr wrong ↦ rw wrong refl
      ] in
    ap refuses_foreign (sym r) ∙ own
