-- ===== src/Base/Rows.antt =====
-- The statements of SQL on the rows of one table: a row is chosen by a Boolean test, deleted,
-- updated in place, or inserted. The order in which a table holds its rows has no meaning; new
-- rows stand first.
use chatroom_server.Base.Tests.{if◌then◌else◌}
use chatroom_server.Base.Lists.{filter, find?, any, All}
use mathlib.Core.Path.{◌≡◌, refl}
use mathlib.Core.Bool.{Bool, true, false, not}
use mathlib.Core.Option
use mathlib.Core.Option.{Option, none, some}
use mathlib.Core.List.{List, [], ◌∷◌}
use native.Mathlib.Omega.{arith}

module _ {ℓ} {A : Type ℓ} where
  -- `DELETE … WHERE p`
  abbrev pub delete_where : (A → Bool) → List A → List A
  delete_where p = filter (λ x. not (p x))

  -- `UPDATE … SET f WHERE p`
  abbrev pub update_where : (A → Bool) → (A → A) → List A → List A
  update_where p f [] = []
  update_where p f (x ∷ xs) = (if p x then f x else x) ∷ update_where p f xs

  -- A unique key: `same x y` says that two rows have the same key.
  abbrev pub IsUnique : (A → A → Bool) → List A → Type 0
  IsUnique same [] = Unit
  IsUnique same (x ∷ xs) = (any (same x) xs ≡ false) × IsUnique same xs

module _ {ℓ} {A : Type ℓ} (q : A → Bool) where
  pub any-find? : (xs : List A) → find? q xs ≡ none → any q xs ≡ false
  any-find? [] h = refl
  any-find? (x ∷ xs) h = ground (arith, any-find? xs)

  pub find?-any : (xs : List A) → any q xs ≡ false → find? q xs ≡ none
  find?-any [] h = refl
  find?-any (x ∷ xs) h = ground (arith, find?-any xs)

module _ {ℓ} {A : Type ℓ} (p q : A → Bool) where
  pub find?-delete_self :
      (xs : List A) → ((x : A) → q x ≡ true → p x ≡ true) → find? q (delete_where p xs) ≡ none
  find?-delete_self [] h = refl
  find?-delete_self (x ∷ xs) h = ground (arith, h x, find?-delete_self xs h)

  pub find?-delete_ne :
      (xs : List A)
      → ((x : A) → q x ≡ true → p x ≡ false)
      → find? q (delete_where p xs) ≡ find? q xs
  find?-delete_ne [] h = refl
  find?-delete_ne (x ∷ xs) h = ground (arith, h x, find?-delete_ne xs h)

  pub any-delete_false : (xs : List A) → any q xs ≡ false → any q (delete_where p xs) ≡ false
  any-delete_false [] h = refl
  any-delete_false (x ∷ xs) h = ground (arith, any-delete_false xs)

  module _ (f : A → A) where
    -- An update that keeps the searched key changes only the row that is found.
    pub find?-update :
        (xs : List A)
        → ((x : A) → q (f x) ≡ q x)
        → find? q (update_where p f xs) ≡ Option.map (λ x. if p x then f x else x) (find? q xs)
    find?-update [] h = refl
    find?-update (x ∷ xs) h = ground (arith, h x, find?-update xs h)

    pub any-update :
        (xs : List A) → ((x : A) → q (f x) ≡ q x) → any q (update_where p f xs) ≡ any q xs
    any-update [] h = refl
    any-update (x ∷ xs) h = ground (arith, h x, any-update xs h)

module _ {ℓ} {A : Type ℓ} (same : A → A → Bool) (p : A → Bool) where
  pub delete-IsUnique : (xs : List A) → IsUnique same xs → IsUnique same (delete_where p xs)
  delete-IsUnique [] u = tt
  delete-IsUnique (x ∷ xs) u =
      ground (arith, delete-IsUnique xs u.1, any-delete_false p (same x) xs u.0)

  -- An update that leaves the keys alone.
  module _ (f : A → A) (left : (x y : A) → same (f x) y ≡ same x y)
      (right : (x y : A) → same x (f y) ≡ same x y) where
    any-update_key : (x : A) (xs : List A) → any (same x) (update_where p f xs) ≡ any (same x) xs
    any-update_key x [] = refl
    any-update_key x (y ∷ ys) = ground (arith, right x y, any-update_key x ys)

    any-left : (x : A) (xs : List A) → any (same (f x)) xs ≡ any (same x) xs
    any-left x [] = refl
    any-left x (y ∷ ys) = ground (arith, left x y, any-left x ys)

    pub update-IsUnique : (xs : List A) → IsUnique same xs → IsUnique same (update_where p f xs)
    update-IsUnique [] u = tt
    update-IsUnique (x ∷ xs) u =
        ground
          (arith, update-IsUnique xs u.1, any-update_key x xs, any-left x (update_where p f xs))

module _ {ℓ κ} {A : Type ℓ} (P : A → Type κ) (p : A → Bool) (f : A → A)
    (keep : (x : A) → P x → P (f x)) where
  pub All-update : (xs : List A) → All P xs → All P (update_where p f xs)
  All-update [] al = tt
  All-update (x ∷ xs) al = (pick x (p x) al.0, All-update xs al.1)
    where
      pick : (x : A) (b : Bool) → P x → P (if b then f x else x)
      pick x true h = keep x h
      pick x false h = h
