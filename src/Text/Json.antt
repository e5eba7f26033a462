-- ===== src/Text/Json.antt =====
-- encoding/json on a list of ids, `[]int64`: `Marshal`, and `Unmarshal` as a machine that reads one
-- character after the other. White space may stand round each token, `null` is the empty list, and 0
-- within a list, a number has no leading zero, and a number past the range of int64 is an error. A negative
-- number, which no id is, is an error too.
pub mod RoundTrip
use chatroom_server.Base.{
  ℕ, suc, ◌+◌, ◌-◌, ◌*◌, ◌^◌, String, Bool, true, false, ◌&&◌, ◌||◌, Option, none, some, List, [],
  ◌∷◌, leb, ltb, ◌==◌, if◌then◌else◌, any,
}
use chatroom_server.Text.Decimal.{format_int}
use Prim.Native.Char.{Char, code}
use Prim.Native.String.{◌++◌}
use mathlib.Core.List.{◌++◌ as append}

-- The numbers after the first, and the end.
abbrev pub more : List ℕ → String
more [] = "]"
more (n ∷ ns) = "," ++ (format_int n ++ more ns)

-- `json.Marshal(uids)`
unfoldable pub marshal_ids : List ℕ → String
unfolding format_int
marshal_ids [] = "[]"
marshal_ids (n ∷ ns) = "[" ++ (format_int n ++ more ns)

-- What has been read: nothing, a part of `null`, an opening bracket, a comma, a number that may go on, a
-- zero, a part of a `null` in the list, a whole number, and the closing bracket, with the numbers before.
pub data Scan : Type 0 where
  start : Scan
  word : ℕ → Scan
  opened : Scan
  comma : List ℕ → Scan
  number : List ℕ → ℕ → Scan
  zero_digit : List ℕ → Scan
  element : List ℕ → ℕ → Scan
  whole : List ℕ → Scan
  closed : List ℕ → Scan
  failed : Scan

abbrev pub snoc : List ℕ → ℕ → List ℕ
snoc ns n = append ns (n ∷ [])

abbrev pub is_space : ℕ → Bool
is_space c = c == 32 || (c == 9 || (c == 10 || c == 13))

abbrev pub is_digit : ℕ → Bool
is_digit c = leb b'0' c && leb c b'9'

-- The first digit of a number, or the first letter of `null`.
abbrev pub begin : List ℕ → ℕ → Scan
begin ns c =
    if c == b'0'
    then zero_digit ns
    else if is_digit c
    then number ns (c - b'0')
    else if c == b'n'
    then element ns 0
    else failed

-- What may follow a whole number.
abbrev pub finish : List ℕ → ℕ → Scan
finish ns c =
    if c == b','
    then comma ns
    else if c == b']'
    then closed ns
    else if is_space c
    then whole ns
    else failed

abbrev pub letter : ℕ → ℕ
letter k = if k == 0 then b'u' else b'l'

abbrev pub step : Scan → ℕ → Scan
step start c =
    if is_space c then start else if c == b'[' then opened else if c == b'n' then word 0 else failed
step (word k) c = if c == letter k then (if k == 2 then closed [] else word (suc k)) else failed
step opened c = if is_space c then opened else if c == b']' then closed [] else begin [] c
step (comma ns) c = if is_space c then comma ns else begin ns c
step (number ns n) c = if is_digit c then number ns (10 * n + (c - b'0')) else finish (snoc ns n) c
step (zero_digit ns) c = finish (snoc ns 0) c
step (element ns k) c =
    if c == letter k then (if k == 2 then whole (snoc ns 0) else element ns (suc k)) else failed
step (whole ns) c = finish ns c
step (closed ns) c = if is_space c then closed ns else failed
step failed c = failed

abbrev pub scan : Scan → String → Scan
scan s String.[] = s
scan s (String.◌∷◌ c cs) = scan (step s (code c)) cs

-- math.MaxInt64
abbrev pub max_int64 : ℕ
max_int64 = 2 ^ 63 - 1

abbrev pub accepted : Scan → Option (List ℕ)
accepted (closed ns) = if any (λ n. ltb max_int64 n) ns then none else some ns
accepted s = none

-- `json.Unmarshal(data, &uids)`
unfoldable pub unmarshal_ids : String → Option (List ℕ)
unmarshal_ids data' = accepted (scan start data')
