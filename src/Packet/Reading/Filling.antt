-- ===== src/Packet/Reading/Filling.antt =====
-- CXConnectionObject.cpp, RecvData: 0 is returned for a full buffer and for no other.
use konsan_net.Prelude.{
  ℕ, zero, suc, ◌+◌, ◌-◌, ◌≤◌, ◌≡◌, ◌⊎◌, refl, Option, none, some, List, [], ◌∷◌, ◌++◌, length,
  take, inl, inr, arith, ◌==◌, false, length-append,
}
use konsan_net.Packet.Reading.{Input, Filled, recv_bytes}

-- Full with 0, or not full with another code.
unfoldable pub Fills : ℕ → Option Filled → Type 0
Fills size none = Unit
Fills size (some f) =
    ((f.code ≡ 0) × (length f.data_read ≡ size))
    ⊎ ((1 ≤ f.code) × (suc (length f.data_read) ≤ size))

take_fits : (n : ℕ) (xs : List ℕ) → length (take n xs) ≤ n
take_fits zero xs = omega arith
take_fits (suc n) [] = omega arith
take_fits (suc n) (x ∷ xs) = let ih = take_fits n xs in omega arith

-- The bytes of a call use up room of the buffer.
room_left :
    (size room : ℕ) (read got : List ℕ)
    → length read + room ≡ size
    → length got ≤ room
    → length (read ++ got) + (room - length got) ≡ size
room_left size room read got fits h = let e = length-append read got in omega arith

not_full : (n : ℕ) → (suc n == 0) ≡ false
not_full n = ground arith

-- A buffer is filled, or the loop ends before that with a code that is not 0.
pub recv_bytes-Fills :
    (script : List Input) (size room : ℕ) (read : List ℕ)
    → length read + room ≡ size
    → Fills size (recv_bytes script room read)
unfolding recv_bytes Fills
recv_bytes-Fills [] size zero read fits = inl (refl, omega arith)
recv_bytes-Fills [] size (suc room) read fits = rw (not_full room) tt
recv_bytes-Fills (Input.bytes b bs ∷ script) size zero read fits = inl (refl, omega arith)
recv_bytes-Fills (Input.bytes b bs ∷ script) size (suc room) read fits =
    let got = take (suc room) (b ∷ bs) in
    rw (not_full room) (
      recv_bytes-Fills script size (suc room - length got) (read ++ got)
        (room_left size (suc room) read got fits (take_fits (suc room) (b ∷ bs))))
recv_bytes-Fills (Input.again ∷ script) size zero read fits = inl (refl, omega arith)
recv_bytes-Fills (Input.again ∷ script) size (suc room) read fits =
    rw (not_full room) (inr (omega arith, omega arith))
recv_bytes-Fills (Input.interrupted ∷ script) size zero read fits = inl (refl, omega arith)
recv_bytes-Fills (Input.interrupted ∷ script) size (suc room) read fits =
    rw (not_full room) (recv_bytes-Fills script size (suc room) read fits)
recv_bytes-Fills (Input.failed ∷ script) size zero read fits = inl (refl, omega arith)
recv_bytes-Fills (Input.failed ∷ script) size (suc room) read fits =
    rw (not_full room) (inr (omega arith, omega arith))
recv_bytes-Fills (Input.peer_closed ∷ script) size zero read fits = inl (refl, omega arith)
recv_bytes-Fills (Input.peer_closed ∷ script) size (suc room) read fits =
    rw (not_full room) (inr (omega arith, omega arith))
