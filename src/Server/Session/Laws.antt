-- ===== src/Server/Session/Laws.antt =====
-- Connections and verification codes of a session.
use konsan_net.Prelude.{
  ℕ, ◌+◌, ◌≡◌, refl, true, false, none, some, List, [], ◌∷◌, ◌++◌, arith, leb, ◌%◌, if◌then◌else◌,
  ==_refl, Fresh, string_key,
}
use konsan_net.Server.Digits.{print_padded}
use Prim.Native.String.{String}
use konsan_net.Server.Session.{
  ConnectionSession, Verification, erase_first, is_main, add_message_connection,
  add_data_connection, remove_listed, remove_connection, reset_verification_info, verify_code,
}

erase_first-Fresh : (a : ℕ) (xs : List ℕ) → Fresh a xs → erase_first a xs ≡ none
unfolding erase_first
erase_first-Fresh a [] h = refl
erase_first-Fresh a (x ∷ xs) h = ground (arith, erase_first-Fresh a xs h.1)

erase_first-append : (a : ℕ) (xs : List ℕ) → Fresh a xs → erase_first a (xs ++ a ∷ []) ≡ some xs
unfolding erase_first
erase_first-append a [] h = rw (==_refl a) refl
erase_first-append a (x ∷ xs) h = ground (arith, erase_first-append a xs h.1)

-- RemoveConnection undoes AddMessageConnection of a connection that the session does not have yet.
pub remove_connection-message :
    (a : ℕ) (s : ConnectionSession)
    → is_main a s ≡ false
    → Fresh a s.message_connections
    → remove_connection a (add_message_connection a s) ≡ (true, s)
unfolding remove_connection add_message_connection is_main remove_listed
remove_connection-message a s p h =
    rw (p, remove_connection)
      (rw (erase_first-append a s.message_connections h, remove_listed) refl)

-- It undoes AddDataConnection of a connection that the session does not have yet.
pub remove_connection-data :
    (a : ℕ) (s : ConnectionSession)
    → is_main a s ≡ false
    → Fresh a s.message_connections
    → Fresh a s.data_connections
    → remove_connection a (add_data_connection a s) ≡ (true, s)
unfolding remove_connection add_data_connection is_main remove_listed
remove_connection-data a s p h k =
    rw (p, remove_connection)
      (rw (erase_first-Fresh a s.message_connections h, remove_listed)
        (rw (erase_first-append a s.data_connections k) refl))

-- After ResetVerificationInfo, VerifyCode accepts the code printed, and only it, for 60 seconds.
pub verify_code-reset :
    (code : String) (random begin now : ℕ) (s : ConnectionSession)
    → verify_code code now (reset_verification_info random begin s) ≡ (
        if string_key.beq code (print_padded 8 (random % 10000000))
        then (if leb now (begin + 60) then Verification.succeed else Verification.time_out)
        else Verification.not_match)
unfolding verify_code reset_verification_info
verify_code-reset code random begin now s = ground arith
