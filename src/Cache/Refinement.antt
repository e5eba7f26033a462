-- ===== src/Cache/Refinement.antt =====
-- The member cache over Redis is a cache as the handlers rely on it.
use chatroom_server.Base.{
  ℕ, ◌≡◌, ◌∙◌, sym, ap, refl, String, none, some, List, ◌⊎◌, inl, inr, arith, Option-cases,
}
use chatroom_server.MemberCache.{IsCache, hit}
use chatroom_server.Text.Decimal.{format_int}
use chatroom_server.Text.Json.{marshal_ids}
use chatroom_server.Text.Json.RoundTrip.{unmarshal_ids-marshal_ids, format_int_injective}
use chatroom_server.Cache.{
  Redis, IsRedis, bytes, nil, failure, Reply, prefix, key, answer, ids_of, get_members, set_members,
  invalidate_members, redis_cache,
}
use Prim.Native.String.{◌++◌, slice, len}
use text.Mathlib.TextPositions.{len-append, slice-append_right}

after_prefix : (t : String) → slice (prefix ++ t) (len prefix) (len (prefix ++ t)) ≡ t
after_prefix t =
    ap (slice (prefix ++ t) (len prefix)) (len-append prefix t) ∙ slice-append_right prefix t

-- Each group has a key of its own.
pub key_injective : (g h : ℕ) → key g ≡ key h → g ≡ h
unfolding key
key_injective g h e = format_int_injective g h (
    sym (after_prefix (format_int g))
    ∙ ap (λ s. slice s (len prefix) (len s)) e
    ∙ after_prefix (format_int h))

Reply-cases :
    (r : Reply)
    → ((d : String) × (r ≡ bytes d)) ⊎ ((us : List ℕ) → answer r ≡ hit us → none ≡ some us)
Reply-cases (bytes d) = inl (d, refl)
Reply-cases nil = inr (λ us h. cc)
Reply-cases failure = inr (λ us h. cc)

module _ (R : Redis) (lawful : IsRedis R) where
  get_members-hit :
      (s : R.State) (g : ℕ) (us : List ℕ)
      → (get_members R s g).0 ≡ hit us
      → ids_of (R.value s (key g)) ≡ some us
  unfolding get_members
  get_members-hit s g us h = elim (Reply-cases (R.get s (key g)).0) [
    | inl (d, e) ↦ ground (arith, e, lawful.get-bytes s (key g) d e)
    | inr other ↦ absurd (ground (arith, other us h))
  ]

  ids-get :
      (s : R.State) (g k : ℕ) (us : List ℕ)
      → ids_of (R.value (get_members R s g).1 (key k)) ≡ some us
      → ids_of (R.value s (key k)) ≡ some us
  unfolding get_members
  ids-get s g k us h = elim (Option-cases (R.value (R.get s (key g)).1 (key k))) [
    | inl e ↦ ground (arith, e)
    | inr (d, e) ↦ ground (arith, e, lawful.value-get s (key g) (key k) d e)
  ]

  ids-del :
      (s : R.State) (g k : ℕ) (us : List ℕ)
      → ids_of (R.value (invalidate_members R s g).1 (key k)) ≡ some us
      → ids_of (R.value s (key k)) ≡ some us
  unfolding invalidate_members
  ids-del s g k us h = elim (Option-cases (R.value (R.del s (key g)).1 (key k))) [
    | inl e ↦ ground (arith, e)
    | inr (d, e) ↦ ground (arith, e, lawful.value-del s (key g) (key k) d e)
  ]

  ids-set :
      (s : R.State) (g ttl k : ℕ) (vs us : List ℕ)
      → ids_of (R.value (set_members R s g vs ttl).1 (key k)) ≡ some us
      → ((k ≡ g) × (us ≡ vs)) ⊎ (ids_of (R.value s (key k)) ≡ some us)
  unfolding set_members
  ids-set s g ttl k vs us h =
      elim (Option-cases (R.value (R.set s (key g) (marshal_ids vs) ttl).1 (key k))) [
        | inl e ↦ ground (arith, e)
        | inr (d, e) ↦ elim (lawful.value-set s (key g) (marshal_ids vs) ttl (key k) d e) [
          | inl (same, written) ↦
              inl (key_injective k g same, ground (arith, e, written, unmarshal_ids-marshal_ids vs))
          | inr old ↦ inr (ground (arith, e, old))
        ]
      ]

  -- Over a Redis that keeps its documented laws, the cache keeps those that the handlers rely on.
  pub redis_cache-IsCache : IsCache (redis_cache R)
  unfolding invalidate_members
  redis_cache-IsCache = record {
    get-hit = get_members-hit;
    holds-get = ids-get;
    holds-set = ids-set;
    holds-invalidate_self = λ s g ok. ap ids_of (lawful.value-del_self s (key g) ok);
    holds-invalidate = ids-del;
  }
