-- ===== src/Action.antt =====
-- Go functions that return an error, as state passing: a call gets the state and returns its
-- result, or its error, with the state that it leaves. A handler's early `return` after writing a
-- response is the error case, with the response as the error.
use chatroom_server.Base.{Bool, Option, none, some, if◌then◌else◌, ◌≡◌, ◌⊎◌, refl, inl, inr}

pub data Result (E A : Type 0) : Type 0 where
  ok : A → Result E A
  err : E → Result E A

pub Result-cases :
    {E A : Type 0} (r : Result E A) → ((a : A) × (r ≡ ok a)) ⊎ ((e : E) × (r ≡ err e))
Result-cases (ok a) = inl (a, refl)
Result-cases (err e) = inr (e, refl)

abbrev pub Action : Type 0 → Type 0 → Type 0 → Type 0
Action S E A = S → Result E A × S

infixl 5 ◌>>=◌ ◌>>◌
abbrev pub ◌>>=◌ : {S E A B : Type 0} → Action S E A → (A → Action S E B) → Action S E B
◌>>=◌ m f s = let (r, s') = m s in elim r [ ok a ↦ f a s' | err e ↦ (err e, s') ]

abbrev pub ◌>>◌ : {S E A B : Type 0} → Action S E A → Action S E B → Action S E B
m >> k = m >>= λ _. k

module _ {S E : Type 0} where
  abbrev pub pure : {A : Type 0} → A → Action S E A
  pure a s = (ok a, s)

  abbrev pub raise : {A : Type 0} → E → Action S E A
  raise e s = (err e, s)

  -- `if c { … return }`: the error, if the test holds.
  abbrev pub raise_if : Bool → E → Action S E (Unit {0})
  raise_if c e s = (if c then err e else ok tt, s)

  -- A value that parsing or decoding may have failed to give.
  abbrev pub or_raise : {A : Type 0} → Option A → E → Action S E A
  or_raise none e = raise e
  or_raise (some a) e = pure a

  -- `_ = f()`: the error is dropped.
  abbrev pub ignore : {A F : Type 0} → Action S F A → Action S E (Unit {0})
  ignore m s = (ok tt, (m s).1)

  -- `v, err := f()`, for a caller that looks at the error itself.
  abbrev pub attempt : {A F : Type 0} → Action S F A → Action S E (Result F A)
  attempt m s = let (r, s') = m s in (ok r, s')

  -- `v, err := f(); if err != nil { e; return }`
  abbrev pub or_else_raise : {A F : Type 0} → Action S F A → E → Action S E A
  or_else_raise m e s = let (r, s') = m s in elim r [ ok a ↦ (ok a, s') | err _ ↦ (err e, s') ]
