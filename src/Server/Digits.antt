-- ===== src/Server/Digits.antt =====
-- What sprintf prints for "%d" and "%08d" in CXConnectionsManager.cpp and CXConnectionSession.cpp.
use konsan_net.Prelude.{ℕ, zero, suc, ◌/◌, ◌%◌, ltb, ◌==◌, if◌then◌else◌}
use Prim.Native.String.{String, ◌++◌}

unfoldable pub print_digit : ℕ → String
print_digit n =
    if n == 0
    then "0"
    else if n == 1
    then "1"
    else if n == 2
    then "2"
    else if n == 3
    then "3"
    else if n == 4
    then "4"
    else if n == 5
    then "5"
    else if n == 6
    then "6"
    else if n == 7
    then "7"
    else if n == 8
    then "8"
    else "9"

-- "%d", of at most as many digits as the fuel.
unfoldable pub print_decimal : ℕ → ℕ → String
print_decimal zero n = ""
print_decimal (suc fuel) n =
    let before = print_decimal fuel (n / 10) in
    if ltb n 10 then print_digit n else before ++ print_digit (n % 10)

-- The last digits of a number, zeros in front.
unfoldable pub print_padded : ℕ → ℕ → String
print_padded zero n = ""
print_padded (suc width) n = print_padded width (n / 10) ++ print_digit (n % 10)
