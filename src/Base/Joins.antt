-- ===== src/Base/Joins.antt =====
-- Searches through the lists that joins build: appended, filtered and nested ones.
use chatroom_server.Base.Tests.{Bool-cases}
use mathlib.Core.Logic.{inl, inr}
use chatroom_server.Base.Lists.{any, filter, All}
use mathlib.Core.Path.{◌≡◌, refl}
use mathlib.Core.Bool.{Bool, ◌&&◌, ◌||◌}
use mathlib.Core.List.{List, [], ◌∷◌, ◌++◌, flat_map}
use native.Mathlib.Omega.{arith}

module _ {ℓ} {A : Type ℓ} where
  pub any-append : (p : A → Bool) (xs ys : List A) → any p (xs ++ ys) ≡ (any p xs || any p ys)
  any-append p [] ys = refl
  any-append p (x ∷ xs) ys = ground (arith, any-append p xs ys)

  pub any-filter : (p q : A → Bool) (xs : List A) → any p (filter q xs) ≡ any (λ x. q x && p x) xs
  any-filter p q [] = refl
  any-filter p q (x ∷ xs) = ground (arith, any-filter p q xs)

  pub any_ext : (p q : A → Bool) (xs : List A) → ((x : A) → p x ≡ q x) → any p xs ≡ any q xs
  any_ext p q [] h = refl
  any_ext p q (x ∷ xs) h = ground (arith, h x, any_ext p q xs h)

  pub any-or : (p q : A → Bool) (xs : List A) → any (λ x. p x || q x) xs ≡ (any p xs || any q xs)
  any-or p q [] = refl
  any-or p q (x ∷ xs) = ground (arith, any-or p q xs)

  module _ {κ} (P : A → Type κ) where
    pub All-append : (xs ys : List A) → All P xs → All P ys → All P (xs ++ ys)
    All-append [] ys hx hy = hy
    All-append (x ∷ xs) ys hx hy = (hx.0, All-append xs ys hx.1 hy)

    pub All-filter : (q : A → Bool) (xs : List A) → All P xs → All P (filter q xs)
    All-filter q [] h = tt
    All-filter q (x ∷ xs) h = elim (Bool-cases (q x)) [
      | inl e ↦ rw e (h.0, All-filter q xs h.1)
      | inr e ↦ rw e (All-filter q xs h.1)
    ]

    pub All-of : ((x : A) → P x) → (xs : List A) → All P xs
    All-of h [] = tt
    All-of h (x ∷ xs) = (h x, All-of h xs)

module _ {ℓ κ} {A : Type ℓ} {B : Type κ} where
  pub any-flat_map :
      (p : B → Bool) (f : A → List B) (xs : List A)
      → any p (flat_map f xs) ≡ any (λ x. any p (f x)) xs
  unfolding flat_map
  any-flat_map p f [] = refl
  any-flat_map p f (x ∷ xs) =
      ground (arith, any-append p (f x) (flat_map f xs), any-flat_map p f xs)

  pub All-flat_map {ρ} :
      (P : B → Type ρ) (f : A → List B) (xs : List A)
      → All (λ x. All P (f x)) xs
      → All P (flat_map f xs)
  unfolding flat_map
  All-flat_map P f [] h = tt
  All-flat_map P f (x ∷ xs) h = All-append P (f x) (flat_map f xs) h.0 (All-flat_map P f xs h.1)
