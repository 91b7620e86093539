-- ===== src/Client/Tcp/Transfers.antt =====
-- CXTcpClient.cpp: Recv and Send over a socket that neither ends nor fails move all the bytes, in pieces of
-- any size.
use konsan_net.Prelude.{
  ℕ, zero, suc, ◌+◌, ◌-◌, ◌≤◌, ◌≡◌, refl, ap, ◌∙◌, some, List, [], ◌∷◌, ◌++◌, length, take, drop,
  ltb, if◌then◌else◌, arith, append-nil, append_assoc, take-drop, length-take, length-drop,
}
use konsan_net.Client.Tcp.{SocketCall, Ended, recv_loop, send_loop}

-- Calls that move bytes.
unfoldable pub Alive : List SocketCall → Type 0
Alive [] = Unit
Alive (SocketCall.moves n ∷ calls) = Alive calls
Alive (SocketCall.ends ∷ calls) = ⊥
Alive (SocketCall.fails ∷ calls) = ⊥

take-add : (a b c : ℕ) (xs : List ℕ) → c ≡ a + b → take a xs ++ take b (drop a xs) ≡ take c xs
take-add zero b c xs e = ap (λ n. take n xs) (let same : b ≡ c = omega arith in same)
take-add (suc a) b zero xs e = absurd (omega arith)
take-add (suc a) zero (suc c) [] e = refl
take-add (suc a) (suc b) (suc c) [] e = refl
take-add (suc a) b (suc c) (x ∷ xs) e = ap (λ (l : List ℕ). x ∷ l) (take-add a b c xs (omega arith))

drop-add : (a b c : ℕ) (xs : List ℕ) → c ≡ a + b → drop b (drop a xs) ≡ drop c xs
drop-add zero b c xs e = ap (λ n. drop n xs) (let same : b ≡ c = omega arith in same)
drop-add (suc a) b zero xs e = absurd (omega arith)
drop-add (suc a) zero (suc c) [] e = refl
drop-add (suc a) (suc b) (suc c) [] e = refl
drop-add (suc a) b (suc c) (x ∷ xs) e = drop-add a b c xs (omega arith)

-- A run of `send_loop` that moved all, and the calls that are left.
pub record SentAll (calls : List SocketCall) (incoming outgoing sent left : List ℕ) : Type 0 where
  pub rest : List SocketCall
  pub alive : Alive rest
  pub enough : length calls ≤ length rest + length left
  pub run :
      send_loop calls incoming outgoing sent left
      ≡ some (record {
        bytes = sent ++ left;
        ended = Ended.whole;
        socket = record { calls = rest; incoming = incoming; outgoing = outgoing ++ left };
      })

pub send_loop-SentAll :
    (calls : List SocketCall) (incoming outgoing sent left : List ℕ)
    → Alive calls
    → length left ≤ length calls
    → SentAll calls incoming outgoing sent left
unfolding send_loop Alive
send_loop-SentAll calls incoming outgoing sent [] a h = record {
  rest = calls;
  alive = a;
  enough = omega arith;
  run = rw (append-nil sent, append-nil outgoing) refl;
}
send_loop-SentAll [] incoming outgoing sent (b ∷ left) a h = absurd (omega arith)
send_loop-SentAll (SocketCall.ends ∷ calls) incoming outgoing sent (b ∷ left) a h = absurd a
send_loop-SentAll (SocketCall.fails ∷ calls) incoming outgoing sent (b ∷ left) a h = absurd a
send_loop-SentAll (SocketCall.moves n ∷ calls) incoming outgoing sent (b ∷ left) a h =
    let took = b ∷ take n left in
    let short = length-drop n left in
    let next =
      send_loop-SentAll calls incoming (outgoing ++ took) (sent ++ took) (drop n left) a
        (omega arith) in
    let back : took ++ drop n left ≡ b ∷ left = ap (λ (l : List ℕ). b ∷ l) (take-drop n left) in
    let enough = next.enough in
    record {
      rest = next.rest;
      alive = next.alive;
      enough = omega arith;
      run =
          next.run
          ∙ rw
              (append_assoc sent took (drop n left), append_assoc outgoing took (drop n left), back)
              refl;
    }

pub record ReadAll (calls : List SocketCall) (incoming outgoing : List ℕ) (want : ℕ) (got : List ℕ)
    : Type 0 where
  pub rest : List SocketCall
  pub alive : Alive rest
  pub enough : length calls ≤ length rest + want
  pub run :
      recv_loop calls incoming outgoing want got
      ≡ some (record {
        bytes = got ++ take want incoming;
        ended = Ended.whole;
        socket = record { calls = rest; incoming = drop want incoming; outgoing = outgoing };
      })

-- A call moves no more bytes than are wanted.
abbrev piece : ℕ → ℕ → ℕ
piece n want = if ltb n want then n else want

piece_small : (n want : ℕ) → piece n want ≤ want
piece_small n want = ground arith

pub recv_loop-ReadAll :
    (calls : List SocketCall) (incoming outgoing : List ℕ) (want : ℕ) (got : List ℕ)
    → Alive calls
    → want ≤ length incoming
    → want ≤ length calls
    → ReadAll calls incoming outgoing want got
unfolding recv_loop Alive
recv_loop-ReadAll calls incoming outgoing zero got a h k = record {
  rest = calls;
  alive = a;
  enough = omega arith;
  run = rw (append-nil got) refl;
}
recv_loop-ReadAll [] incoming outgoing (suc want) got a h k = absurd (omega arith)
recv_loop-ReadAll (SocketCall.ends ∷ calls) incoming outgoing (suc want) got a h k = absurd a
recv_loop-ReadAll (SocketCall.fails ∷ calls) incoming outgoing (suc want) got a h k = absurd a
recv_loop-ReadAll (SocketCall.moves n ∷ calls) [] outgoing (suc want) got a h k =
    absurd (omega arith)
recv_loop-ReadAll (SocketCall.moves n ∷ calls) (b ∷ incoming) outgoing (suc want) got a h k =
    let size = piece n want in
    let small = piece_small n want in
    let front = take size incoming in
    let taken : length front ≡ size = length-take size incoming (omega arith) in
    let left = length-drop size incoming in
    let next =
      recv_loop-ReadAll calls (drop size incoming) outgoing (want - size) (got ++ b ∷ front) a
        (omega arith) (omega arith) in
    let enough = next.enough in
    record {
      rest = next.rest;
      alive = next.alive;
      enough = omega arith;
      run =
          ap (λ m. recv_loop calls (drop size incoming) outgoing (want - m) (got ++ b ∷ front))
            taken
          ∙ next.run
          ∙ rw
              (
                append_assoc got (b ∷ front) (take (want - size) (drop size incoming)),
                take-add size (want - size) want incoming (omega arith),
                drop-add size (want - size) want incoming (omega arith),
              )
              refl;
    }
