-- ===== src/Prelude/Texts.antt =====
-- char arrays and std::string: bytes, and the texts that they are.
use Prim.Native.Nat.{ℕ, ◌%◌, compare, Ordering}
use Prim.Native.Char.{Char, IsScalar, code}
use Prim.Native.String.{String}
use mathlib.Core.Path.{◌≡◌}
use mathlib.Core.Option.{Option, none, some}
use mathlib.Core.List.{List, [], ◌∷◌}
use native.Mathlib.Omega.{arith}
use konsan_net.Prelude.Tests.{◌==◌, if◌then◌else◌}

pub byte-IsScalar : (b : ℕ) → IsScalar (b % 256)
byte-IsScalar b = let small : compare (b % 256) 55296 ≡ Ordering.lt = ground arith in rw small tt

-- A char is a byte.
unfoldable pub byte_char : ℕ → Char
byte_char b = Char.char (b % 256) (byte-IsScalar b)

unfoldable pub text_of : List ℕ → String
text_of [] = String.[]
text_of (b ∷ bs) = String.◌∷◌ (byte_char b) (text_of bs)

-- The bytes of an ASCII text.
unfoldable pub bytes_of : String → List ℕ
bytes_of String.[] = []
bytes_of (String.◌∷◌ c s) = code c ∷ bytes_of s

-- strlen and a std::string of a char array: what stands before the first zero.
unfoldable pub until_nul : List ℕ → List ℕ
until_nul [] = []
until_nul (b ∷ bs) = let rest = until_nul bs in if b == 0 then [] else b ∷ rest

-- find and substr: the parts before and behind the first byte that is `mark`.
unfoldable pub split_at : ℕ → List ℕ → Option (List ℕ × List ℕ)
split_at mark [] = none
split_at mark (b ∷ bs) =
    let rest = split_at mark bs in
    if b == mark then some ([], bs) else elim rest [ none ↦ none | some (x, y) ↦ some (b ∷ x, y) ]
