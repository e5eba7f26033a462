-- ===== src/Text/Json/RoundTrip.antt =====
-- Reading back what `marshal_ids` writes, and what `format_int` writes.
use chatroom_server.Base.{
  ℕ, zero, suc, ◌+◌, ◌*◌, ◌/◌, ◌%◌, ◌<◌, ◌≡◌, refl, sym, ap, ◌∙◌, String, List, [], ◌∷◌, ltb, ◌==◌,
  if◌then◌else◌, any, arith, none, some, Bool-cases, inl, inr,
}
use chatroom_server.Text.Decimal.{digit, format_digits, format_int}
use chatroom_server.Text.Json.{
  marshal_ids, more, Scan, start, comma, number, zero_digit, closed, opened, snoc, step, scan,
  accepted, max_int64, unmarshal_ids,
}
use Prim.Native.Char.{code}
use Prim.Native.String.{◌++◌}
use Prim.Native.String.append
use mathlib.Core.List.{◌++◌ as append, append-nil, append_assoc as list_assoc}

-- A number that has been read, where `ns` stand before it.
abbrev read : List ℕ → ℕ → Scan
read ns n = if n == 0 then zero_digit ns else number ns n

pub scan-append : (s : Scan) (a b : String) → scan s (a ++ b) ≡ scan (scan s a) b
scan-append s String.[] b = ap (scan s) (append.nil b)
scan-append s (String.◌∷◌ c a) b =
    ap (scan s) (append.cons c a b) ∙ scan-append (step s (code c)) a b

scan-digit-first : (ns : List ℕ) (d : ℕ) → d < 10 → scan (comma ns) (digit d) ≡ read ns d
scan-digit-first ns zero h = refl
scan-digit-first ns (suc zero) h = refl
scan-digit-first ns (suc (suc zero)) h = refl
scan-digit-first ns (suc (suc (suc zero))) h = refl
scan-digit-first ns (suc (suc (suc (suc zero)))) h = refl
scan-digit-first ns (suc (suc (suc (suc (suc zero))))) h = refl
scan-digit-first ns (suc (suc (suc (suc (suc (suc zero)))))) h = refl
scan-digit-first ns (suc (suc (suc (suc (suc (suc (suc zero))))))) h = refl
scan-digit-first ns (suc (suc (suc (suc (suc (suc (suc (suc zero)))))))) h = refl
scan-digit-first ns (suc (suc (suc (suc (suc (suc (suc (suc (suc zero))))))))) h = refl
scan-digit-first ns (suc (suc (suc (suc (suc (suc (suc (suc (suc (suc d)))))))))) h =
    absurd (omega arith)

scan-digit-opened : (d : ℕ) → d < 10 → scan opened (digit d) ≡ read [] d
scan-digit-opened zero h = refl
scan-digit-opened (suc zero) h = refl
scan-digit-opened (suc (suc zero)) h = refl
scan-digit-opened (suc (suc (suc zero))) h = refl
scan-digit-opened (suc (suc (suc (suc zero)))) h = refl
scan-digit-opened (suc (suc (suc (suc (suc zero))))) h = refl
scan-digit-opened (suc (suc (suc (suc (suc (suc zero)))))) h = refl
scan-digit-opened (suc (suc (suc (suc (suc (suc (suc zero))))))) h = refl
scan-digit-opened (suc (suc (suc (suc (suc (suc (suc (suc zero)))))))) h = refl
scan-digit-opened (suc (suc (suc (suc (suc (suc (suc (suc (suc zero))))))))) h = refl
scan-digit-opened (suc (suc (suc (suc (suc (suc (suc (suc (suc (suc d)))))))))) h =
    absurd (omega arith)

scan-digit_next :
    (ns : List ℕ) (n d : ℕ) → d < 10 → scan (number ns n) (digit d) ≡ number ns (10 * n + d)
scan-digit_next ns n zero h = refl
scan-digit_next ns n (suc zero) h = refl
scan-digit_next ns n (suc (suc zero)) h = refl
scan-digit_next ns n (suc (suc (suc zero))) h = refl
scan-digit_next ns n (suc (suc (suc (suc zero)))) h = refl
scan-digit_next ns n (suc (suc (suc (suc (suc zero))))) h = refl
scan-digit_next ns n (suc (suc (suc (suc (suc (suc zero)))))) h = refl
scan-digit_next ns n (suc (suc (suc (suc (suc (suc (suc zero))))))) h = refl
scan-digit_next ns n (suc (suc (suc (suc (suc (suc (suc (suc zero)))))))) h = refl
scan-digit_next ns n (suc (suc (suc (suc (suc (suc (suc (suc (suc zero))))))))) h = refl
scan-digit_next ns n (suc (suc (suc (suc (suc (suc (suc (suc (suc (suc d)))))))))) h =
    absurd (omega arith)

-- A machine that reads a first digit reads the whole number.
module _ (ns : List ℕ) (s : Scan) (first : (d : ℕ) → d < 10 → scan s (digit d) ≡ read ns d) where
  scan-format_digits : (f n : ℕ) → n < f → scan s (format_digits f n) ≡ read ns n
  scan-format_digits zero n h = absurd (omega arith)
  scan-format_digits (suc f) n h = elim (Bool-cases (ltb n 10)) [
    | inl small ↦ rw small (first n (ground arith))
    | inr large ↦ rw large (
        scan-append s (format_digits f (n / 10)) (digit (n % 10))
        ∙ ap (λ r. scan r (digit (n % 10))) (scan-format_digits f (n / 10) (ground arith))
        ∙ ground (arith, scan-digit_next ns (n / 10) (n % 10)))
  ]

  pub scan-format_int : (n : ℕ) → scan s (format_int n) ≡ read ns n
  unfolding format_int
  scan-format_int n = scan-format_digits (suc n) n (omega arith)

read-end : (ns : List ℕ) (n : ℕ) → scan (read ns n) "]" ≡ closed (snoc ns n)
read-end ns n = elim (Bool-cases (n == 0)) [
  | inl z ↦ let e : n ≡ 0 = ground arith in rw e refl
  | inr nz ↦ rw nz refl
]

read-comma : (ns : List ℕ) (n : ℕ) → scan (read ns n) "," ≡ comma (snoc ns n)
read-comma ns n = elim (Bool-cases (n == 0)) [
  | inl z ↦ let e : n ≡ 0 = ground arith in rw e refl
  | inr nz ↦ rw nz refl
]

scan-more :
    (ns : List ℕ) (n : ℕ) (us : List ℕ)
    → scan (read ns n) (more us) ≡ closed (append (snoc ns n) us)
scan-more ns n [] = read-end ns n ∙ ap closed (sym (append-nil (snoc ns n)))
scan-more ns n (m ∷ us) =
    scan-append (read ns n) "," (format_int m ++ more us)
    ∙ ap (λ s. scan s (format_int m ++ more us)) (read-comma ns n)
    ∙ scan-append (comma (snoc ns n)) (format_int m) (more us)
    ∙ ap (λ s. scan s (more us))
        (scan-format_int (snoc ns n) (comma (snoc ns n)) (scan-digit-first (snoc ns n)) m)
    ∙ scan-more (snoc ns n) m us
    ∙ ap closed (list_assoc (snoc ns n) (m ∷ []) us)

scan-marshal_ids : (ns : List ℕ) → scan start (marshal_ids ns) ≡ closed ns
unfolding marshal_ids
scan-marshal_ids [] = refl
scan-marshal_ids (n ∷ ns) =
    scan-append start "[" (format_int n ++ more ns)
    ∙ scan-append opened (format_int n) (more ns)
    ∙ ap (λ s. scan s (more ns)) (scan-format_int [] opened scan-digit-opened n)
    ∙ scan-more [] n ns

pub unmarshal_ids-marshal_ids :
    (ns : List ℕ)
    → unmarshal_ids (marshal_ids ns) ≡ (if any (λ n. ltb max_int64 n) ns then none else some ns)
unfolding unmarshal_ids
unmarshal_ids-marshal_ids ns = ap accepted (scan-marshal_ids ns)

-- Two numbers with one text are one number.
pub format_int_injective : (n m : ℕ) → format_int n ≡ format_int m → n ≡ m
format_int_injective n m e =
    let f = λ (k : ℕ). scan-format_int [] (comma []) (scan-digit-first []) k in
    let r : read [] n ≡ read [] m = sym (f n) ∙ ap (scan (comma [])) e ∙ f m in ground (arith, r)
