-- ===== src/MemberCache.antt =====
-- The cache of the member lists, as the handlers see it: `GroupMemberCache` of
-- internal/message/handler.go and `MemberCache` of internal/room/handler.go, which one value
-- implements. Its state is the remote server's, with whatever decides which calls fail.
use chatroom_server.Base.{ℕ, ◌≡◌, refl, inl, inr, Bool, true, ◌⊎◌, Option, none, some, List}

-- The answer of `Get`: the list and true; false; or an error.
pub data Cached : Type 0 where
  hit : List ℕ → Cached
  miss cache_error : Cached

pub Cached-cases : (c : Cached) → ((us : List ℕ) × (c ≡ hit us)) ⊎ ((c ≡ miss) ⊎ (c ≡ cache_error))
Cached-cases (hit us) = inl (us, refl)
Cached-cases miss = inr (inl refl)
Cached-cases cache_error = inr (inr refl)

-- `enabled` is false for the nil interface. `Set` and `Invalidate` return true if they succeed.
pub record MemberCache : Type 1 where
  pub State : Type 0
  pub enabled : Bool
  pub get : State → ℕ → Cached × State
  pub set : State → ℕ → List ℕ → ℕ → Bool × State
  pub invalidate : State → ℕ → Bool × State
  -- What a `Get` may answer for a group, if anything.
  pub holds : State → ℕ → Option (List ℕ)

-- What the handlers rely on. Entries may expire, and calls may fail, at any time.
pub record IsCache (C : MemberCache) : Type 0 where
  -- A hit is what the cache holds.
  pub get-hit : (s : C.State) (g : ℕ) (us : List ℕ) → (C.get s g).0 ≡ hit us → C.holds s g ≡ some us
  -- Reading adds nothing.
  pub holds-get :
      (s : C.State) (g k : ℕ) (us : List ℕ)
      → C.holds (C.get s g).1 k ≡ some us
      → C.holds s k ≡ some us
  -- A write adds at most the entry that is written.
  pub holds-set :
      (s : C.State) (g ttl k : ℕ) (vs us : List ℕ)
      → C.holds (C.set s g vs ttl).1 k ≡ some us
      → ((k ≡ g) × (us ≡ vs)) ⊎ (C.holds s k ≡ some us)
  -- An invalidation that succeeds leaves no entry of the group, and none adds an entry.
  pub holds-invalidate_self :
      (s : C.State) (g : ℕ) → (C.invalidate s g).0 ≡ true → C.holds (C.invalidate s g).1 g ≡ none
  pub holds-invalidate :
      (s : C.State) (g k : ℕ) (us : List ℕ)
      → C.holds (C.invalidate s g).1 k ≡ some us
      → C.holds s k ≡ some us
