-- ===== src/Text/Decimal/Digits.antt =====
-- `format_int` of Text/Decimal: its fuel is enough.
use chatroom_server.Base.{ℕ, zero, suc, ◌/◌, ◌%◌, ◌<◌, ◌≡◌, ltb, if◌then◌else◌, arith}
use chatroom_server.Text.Decimal.{digit, format_digits, format_int}
use Prim.Native.String.{◌++◌}

-- More fuel than the number changes nothing.
enough : (j k n : ℕ) → n < j → n < k → format_digits j n ≡ format_digits k n
enough zero k n hj hk = absurd (omega arith)
enough (suc j) zero n hj hk = absurd (omega arith)
enough (suc j) (suc k) n hj hk = ground (arith, enough j k (n / 10))

-- A number of one digit is written as that digit, and any other as its digits but for the last, and
-- then the last.
pub format_int_digits :
    (n : ℕ) → format_int n ≡ (if ltb n 10 then digit n else format_int (n / 10) ++ digit (n % 10))
unfolding format_int
format_int_digits n = ground (arith, enough n (suc (n / 10)) (n / 10))
