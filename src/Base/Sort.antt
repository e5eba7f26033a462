-- ===== src/Base/Sort.antt =====
-- `ORDER BY`: insertion sort by a Boolean comparison.
use chatroom_server.Base.Tests.{if◌then◌else◌, Bool-cases}
use mathlib.Core.Logic.{inl, inr}
use chatroom_server.Base.Lists.{any, All}
use mathlib.Core.Path.{◌≡◌, refl}
use mathlib.Core.Bool.{Bool, true, false, ◌||◌}
use mathlib.Core.List.{List, [], ◌∷◌}
use native.Mathlib.Omega.{arith}

module _ {ℓ} {A : Type ℓ} (le : A → A → Bool) where
  unfoldable pub insert_by : A → List A → List A
  insert_by x [] = x ∷ []
  insert_by x (y ∷ ys) = let rest = insert_by x ys in if le x y then x ∷ y ∷ ys else y ∷ rest

  unfoldable pub sort_by : List A → List A
  unfolding insert_by
  sort_by [] = []
  sort_by (x ∷ xs) = insert_by x (sort_by xs)

  -- Each element is below all that follow it.
  abbrev pub IsSorted : List A → Type ℓ
  IsSorted [] = Unit
  IsSorted (x ∷ xs) = All (λ y. le x y ≡ true) xs × IsSorted xs

  any-insert_by : (p : A → Bool) (x : A) (ys : List A) → any p (insert_by x ys) ≡ (p x || any p ys)
  unfolding insert_by
  any-insert_by p x [] = refl
  any-insert_by p x (y ∷ ys) = ground (arith, any-insert_by p x ys)

  -- Sorting keeps the elements.
  pub any-sort_by : (p : A → Bool) (xs : List A) → any p (sort_by xs) ≡ any p xs
  unfolding sort_by
  any-sort_by p [] = refl
  any-sort_by p (x ∷ xs) = ground (arith, any-insert_by p x (sort_by xs), any-sort_by p xs)

  module _ {κ} (P : A → Type κ) where
    All-insert_by : (x : A) (ys : List A) → P x → All P ys → All P (insert_by x ys)
    unfolding insert_by
    All-insert_by x [] h al = (h, tt)
    All-insert_by x (y ∷ ys) h al = elim (Bool-cases (le x y)) [
      | inl e ↦ rw e (h, al)
      | inr e ↦ rw e (al.0, All-insert_by x ys h al.1)
    ]

    pub All-sort_by : (xs : List A) → All P xs → All P (sort_by xs)
    unfolding sort_by
    All-sort_by [] al = tt
    All-sort_by (x ∷ xs) al = All-insert_by x (sort_by xs) al.0 (All-sort_by xs al.1)

  module _ (total : (x y : A) → le x y ≡ false → le y x ≡ true)
      (trans : (x y z : A) → le x y ≡ true → le y z ≡ true → le x z ≡ true) where
    above-All :
        (x y : A) (ys : List A)
        → le x y ≡ true
        → All (λ z. le y z ≡ true) ys
        → All (λ z. le x z ≡ true) ys
    above-All x y [] h al = tt
    above-All x y (z ∷ zs) h al = (trans x y z h al.0, above-All x y zs h al.1)

    insert_by-IsSorted : (x : A) (ys : List A) → IsSorted ys → IsSorted (insert_by x ys)
    unfolding insert_by
    insert_by-IsSorted x [] s = (tt, tt)
    insert_by-IsSorted x (y ∷ ys) s = elim (Bool-cases (le x y)) [
      | inl e ↦ rw e ((e, above-All x y ys e s.0), s)
      | inr e ↦
          rw e
            (All-insert_by (λ z. le y z ≡ true) x ys (total x y e) s.0, insert_by-IsSorted x ys s.1)
    ]

    -- By a total order, sorting gives a sorted list.
    pub sort_by-IsSorted : (xs : List A) → IsSorted (sort_by xs)
    unfolding sort_by
    sort_by-IsSorted [] = tt
    sort_by-IsSorted (x ∷ xs) = insert_by-IsSorted x (sort_by xs) (sort_by-IsSorted xs)
