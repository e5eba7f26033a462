-- ===== src/Text/Atoi/RoundTrip.antt =====
-- `Atoi` reads what `format_int` writes.
use chatroom_server.Base.{
  ℕ, zero, suc, ◌+◌, ◌*◌, ◌/◌, ◌%◌, ◌<◌, ◌≤◌, ◌≡◌, refl, ap, ◌∙◌, String, false, some, ltb, arith,
  Bool-cases, inl, inr,
}
use chatroom_server.Base.Int.{pos}
use chatroom_server.Text.Decimal.{digit, format_digits, format_int}
use chatroom_server.Text.Json.{max_int64}
use chatroom_server.Text.Atoi.{Reading, start, digits, step, read, in_range, atoi}
use Prim.Native.Char.{code}
use Prim.Native.String.{◌++◌}
use Prim.Native.String.append

read-append : (r : Reading) (a b : String) → read r (a ++ b) ≡ read (read r a) b
read-append r String.[] b = ap (read r) (append.nil b)
read-append r (String.◌∷◌ c a) b =
    ap (read r) (append.cons c a b) ∙ read-append (step r (code c)) a b

read-digit_first : (d : ℕ) → d < 10 → read start (digit d) ≡ digits false d
read-digit_first zero h = refl
read-digit_first (suc zero) h = refl
read-digit_first (suc (suc zero)) h = refl
read-digit_first (suc (suc (suc zero))) h = refl
read-digit_first (suc (suc (suc (suc zero)))) h = refl
read-digit_first (suc (suc (suc (suc (suc zero))))) h = refl
read-digit_first (suc (suc (suc (suc (suc (suc zero)))))) h = refl
read-digit_first (suc (suc (suc (suc (suc (suc (suc zero))))))) h = refl
read-digit_first (suc (suc (suc (suc (suc (suc (suc (suc zero)))))))) h = refl
read-digit_first (suc (suc (suc (suc (suc (suc (suc (suc (suc zero))))))))) h = refl
read-digit_first (suc (suc (suc (suc (suc (suc (suc (suc (suc (suc d)))))))))) h =
    absurd (omega arith)

read-digit_next : (n d : ℕ) → d < 10 → read (digits false n) (digit d) ≡ digits false (10 * n + d)
read-digit_next n zero h = refl
read-digit_next n (suc zero) h = refl
read-digit_next n (suc (suc zero)) h = refl
read-digit_next n (suc (suc (suc zero))) h = refl
read-digit_next n (suc (suc (suc (suc zero)))) h = refl
read-digit_next n (suc (suc (suc (suc (suc zero))))) h = refl
read-digit_next n (suc (suc (suc (suc (suc (suc zero)))))) h = refl
read-digit_next n (suc (suc (suc (suc (suc (suc (suc zero))))))) h = refl
read-digit_next n (suc (suc (suc (suc (suc (suc (suc (suc zero)))))))) h = refl
read-digit_next n (suc (suc (suc (suc (suc (suc (suc (suc (suc zero))))))))) h = refl
read-digit_next n (suc (suc (suc (suc (suc (suc (suc (suc (suc (suc d)))))))))) h =
    absurd (omega arith)

read-format_digits : (f n : ℕ) → n < f → read start (format_digits f n) ≡ digits false n
read-format_digits zero n h = absurd (omega arith)
read-format_digits (suc f) n h = elim (Bool-cases (ltb n 10)) [
  | inl small ↦ rw small (read-digit_first n (ground arith))
  | inr large ↦ rw large (
      read-append start (format_digits f (n / 10)) (digit (n % 10))
      ∙ ap (λ r. read r (digit (n % 10))) (read-format_digits f (n / 10) (ground arith))
      ∙ ground (arith, read-digit_next (n / 10) (n % 10)))
]

-- A number in the range of int64 is read back.
pub atoi-format_int : (n : ℕ) → n ≤ max_int64 → atoi (format_int n) ≡ some (pos n)
unfolding atoi format_int
atoi-format_int n h = ap in_range (read-format_digits (suc n) n (omega arith)) ∙ ground arith
