-- ===== src/Text/Decimal.antt =====
-- `strconv.FormatInt` of a number that is not negative, in base 10.
pub mod Digits
use chatroom_server.Base.{ℕ, zero, suc, ◌/◌, ◌%◌, String, ltb, if◌then◌else◌}
use Prim.Native.String.{◌++◌, slice}

abbrev pub digit : ℕ → String
digit d = slice "0123456789" d (suc d)

abbrev pub format_digits : ℕ → ℕ → String
format_digits zero n = ""
format_digits (suc fuel) n =
    let rest = format_digits fuel (n / 10) in if ltb n 10 then digit n else rest ++ digit (n % 10)

-- `strconv.FormatInt(n, 10)`. A number has fewer digits than one more than itself.
unfoldable pub format_int : ℕ → String
format_int n = format_digits (suc n) n
