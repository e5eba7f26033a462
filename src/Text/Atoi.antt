-- ===== src/Text/Atoi.antt =====
-- `strconv.Atoi`, as a machine that reads one character after the other: a sign, which may be missing,
-- and one digit at least. A value outside the range of int64 is an error.
pub mod RoundTrip
use chatroom_server.Base.{
  ℕ, ◌+◌, ◌-◌, ◌*◌, ◌^◌, String, Bool, true, false, Option, none, some, leb, ◌==◌, if◌then◌else◌,
}
use chatroom_server.Base.Int.{ℤ, pos, neg}
use chatroom_server.Text.Json.{is_digit, max_int64}
use Prim.Native.Char.{code}

-- `neg` is true after a minus sign.
pub data Reading : Type 0 where
  start : Reading
  sign : Bool → Reading
  digits : Bool → ℕ → Reading
  failed : Reading

abbrev pub step : Reading → ℕ → Reading
step start c =
    if c == b'-'
    then sign true
    else if c == b'+'
    then sign false
    else if is_digit c
    then digits false (c - b'0')
    else failed
step (sign minus) c = if is_digit c then digits minus (c - b'0') else failed
step (digits minus n) c = if is_digit c then digits minus (10 * n + (c - b'0')) else failed
step failed c = failed

abbrev pub read : Reading → String → Reading
read r String.[] = r
read r (String.◌∷◌ c cs) = read (step r (code c)) cs

abbrev pub in_range : Reading → Option ℤ
in_range (digits true n) = if leb n (max_int64 + 1) then some (neg n) else none
in_range (digits false n) = if leb n max_int64 then some (pos n) else none
in_range r = none

unfoldable pub atoi : String → Option ℤ
atoi s = in_range (read start s)
