-- ===== src/Server/Session.antt =====
-- CXCommunicationServer/src/CXConnectionSession.cpp. Connections and objects are pointers, as numbers;
-- the time is time(NULL) and `random` is rand(). The locks of the session are held for one operation
-- each and are left out.
pub mod Laws
use konsan_net.Prelude.{
  ℕ, zero, suc, ◌+◌, ◌-◌, ◌*◌, ◌/◌, ◌%◌, ◌^◌, Bool, true, false, Option, none, some, List, [], ◌∷◌,
  ◌++◌, length, ltb, leb, ◌==◌, if◌then◌else◌, find, insert, erase, values, string_key,
}
use konsan_net.Server.Digits.{print_padded}
use Prim.Native.String.{String}

pub record ConnectionSession : Type 0 where
  pub main_connection : Option ℕ
  pub message_connections : List ℕ
  pub data_connections : List ℕ
  pub object_connections : List ℕ
  pub session_guid : String
  pub verification_code : String
  pub objects : List (String × Option ℕ)
  pub has_objects_pool : Bool
  pub begin_of_verification : ℕ
  pub time_out_seconds_of_verification : ℕ

-- CXConnectionSession::CXConnectionSession
unfoldable pub new_session : ConnectionSession
new_session = record {
  main_connection = none;
  message_connections = [];
  data_connections = [];
  object_connections = [];
  session_guid = "";
  verification_code = "";
  objects = [];
  has_objects_pool = false;
  begin_of_verification = 0;
  time_out_seconds_of_verification = 0;
}

-- AddMainConnection, AddMessageConnection, AddDataConnection
unfoldable pub add_main_connection : ℕ → ConnectionSession → ConnectionSession
add_main_connection a s = record s { main_connection = some a }

unfoldable pub add_message_connection : ℕ → ConnectionSession → ConnectionSession
add_message_connection a s = record s { message_connections = s.message_connections ++ a ∷ [] }

unfoldable pub add_data_connection : ℕ → ConnectionSession → ConnectionSession
add_data_connection a s = record s { data_connections = s.data_connections ++ a ∷ [] }

-- A loop of RemoveConnection: the list without the first `a`, none where it has none.
unfoldable pub erase_first : ℕ → List ℕ → Option (List ℕ)
erase_first a [] = none
erase_first a (x ∷ xs) =
    let rest = erase_first a xs in
    if x == a then some xs else elim rest [ none ↦ none | some ys ↦ some (x ∷ ys) ]

unfoldable pub is_main : ℕ → ConnectionSession → Bool
is_main a s = elim s.main_connection [ none ↦ false | some b ↦ b == a ]

-- RemoveConnection: false is the result -2.
unfoldable pub remove_listed : ℕ → ConnectionSession → Bool × ConnectionSession
remove_listed a s = elim (erase_first a s.message_connections) [
  | some xs ↦ (true, record s { message_connections = xs })
  | none ↦ elim (erase_first a s.data_connections) [
    | some xs ↦ (true, record s { data_connections = xs })
    | none ↦ elim (erase_first a s.object_connections) [
      | some xs ↦ (true, record s { object_connections = xs })
      | none ↦ (false, s)
    ]
  ]
]

unfoldable pub remove_connection : ℕ → ConnectionSession → Bool × ConnectionSession
remove_connection a s =
    if is_main a s then (true, record s { main_connection = none }) else remove_listed a s

-- The objects of the session that are not NULL.
unfoldable pub objects_there : List (Option ℕ) → List ℕ
objects_there [] = []
objects_there (none ∷ rest) = objects_there rest
objects_there (some a ∷ rest) = a ∷ objects_there rest

-- Destroy: the objects that are destroyed, those that FreeObject of the pool is called for, and the session.
unfoldable pub destroy : ConnectionSession → (List ℕ × List ℕ) × ConnectionSession
destroy s = (
  (
    objects_there (values s.objects),
    if s.has_objects_pool then objects_there (values s.objects) else [],
  ),
  record s { main_connection = none; session_guid = ""; verification_code = ""; objects = [] },
)

-- AddObject, FindObject, RemoveObject
unfoldable pub add_object : String → Option ℕ → ConnectionSession → ConnectionSession
add_object i a s = record s { objects = insert i a s.objects }

unfoldable pub find_object : String → ConnectionSession → Option ℕ
find_object i s = elim (find i s.objects) [ none ↦ none | some a ↦ a ]

unfoldable pub remove_object : String → ConnectionSession → ConnectionSession
remove_object i s = record s { objects = erase i s.objects }

-- GetConnectionNumber
unfoldable pub get_connection_number : ConnectionSession → ℕ
get_connection_number s =
    elim s.main_connection [ none ↦ 0 | some a ↦ 1 ]
    + (length s.message_connections + length s.data_connections)

-- ResetVerificationInfo: a code that "%08d" prints.
unfoldable pub reset_verification_info : ℕ → ℕ → ConnectionSession → ConnectionSession
reset_verification_info random now s = record s {
  verification_code = print_padded 8 (random % 10000000);
  begin_of_verification = now;
  time_out_seconds_of_verification = 60;
}

-- The results 0, -1 and -2 of VerifyCode.
pub data Verification : Type 0 where
  succeed : Verification
  not_match : Verification
  time_out : Verification

-- VerifyCode. A clock that was set back gives a negative difference, which has not timed out.
unfoldable pub verify_code : String → ℕ → ConnectionSession → Verification
verify_code code now s =
    if string_key.beq code s.verification_code
    then (if ltb s.time_out_seconds_of_verification (now - s.begin_of_verification)
        then Verification.time_out
        else Verification.succeed)
    else Verification.not_match
