-- ===== src/Cache.antt =====
-- internal/cache/members.go: the member cache over Redis. The client of Redis is go-redis's, which the
-- definitions take as a record of operations.
pub mod Refinement
use chatroom_server.Base.{ℕ, ◌≡◌, String, Bool, true, Option, none, some, List, ◌⊎◌}
use chatroom_server.MemberCache.{MemberCache, Cached, hit, miss, cache_error}
use chatroom_server.Text.Decimal.{format_int}
use chatroom_server.Text.Json.{marshal_ids, unmarshal_ids}
use Prim.Native.String.{◌++◌}

-- The answer of GET: the bytes, `redis.Nil`, or an error.
pub data Reply : Type 0 where
  bytes : String → Reply
  nil failure : Reply

-- `Set` and `Del` return true if they succeed.
pub record Redis : Type 1 where
  pub State : Type 0
  pub get : State → String → Reply × State
  pub set : State → String → String → ℕ → Bool × State
  pub del : State → String → Bool × State
  -- What a GET may answer for a key, if anything.
  pub value : State → String → Option String

-- What Redis documents of GET, SET and DEL, where entries may expire, and calls may fail, at any time.
pub record IsRedis (R : Redis) : Type 0 where
  pub get-bytes : (s : R.State) (k d : String) → (R.get s k).0 ≡ bytes d → R.value s k ≡ some d
  pub value-get :
      (s : R.State) (k j d : String) → R.value (R.get s k).1 j ≡ some d → R.value s j ≡ some d
  pub value-set :
      (s : R.State) (k d : String) (ttl : ℕ) (j e : String)
      → R.value (R.set s k d ttl).1 j ≡ some e
      → ((j ≡ k) × (e ≡ d)) ⊎ (R.value s j ≡ some e)
  pub value-del_self :
      (s : R.State) (k : String) → (R.del s k).0 ≡ true → R.value (R.del s k).1 k ≡ none
  pub value-del :
      (s : R.State) (k j d : String) → R.value (R.del s k).1 j ≡ some d → R.value s j ≡ some d

abbrev pub prefix : String
prefix = "chatroom:group_members:"

-- `key`
unfoldable pub key : ℕ → String
key group_id = prefix ++ format_int group_id

-- `json.Unmarshal`, where its error is that of `Get`.
abbrev pub decoded : Option (List ℕ) → Cached
decoded none = cache_error
decoded (some uids) = hit uids

abbrev pub answer : Reply → Cached
answer (bytes d) = decoded (unmarshal_ids d)
answer nil = miss
answer failure = cache_error

abbrev pub ids_of : Option String → Option (List ℕ)
ids_of none = none
ids_of (some d) = unmarshal_ids d

module _ (R : Redis) where
  -- `Get`
  unfoldable pub get_members : R.State → ℕ → Cached × R.State
  get_members s group_id = let (r, s') = R.get s (key group_id) in (answer r, s')

  -- `Set`; a list of ids can be encoded.
  unfoldable pub set_members : R.State → ℕ → List ℕ → ℕ → Bool × R.State
  set_members s group_id uids ttl = R.set s (key group_id) (marshal_ids uids) ttl

  -- `Invalidate`
  unfoldable pub invalidate_members : R.State → ℕ → Bool × R.State
  invalidate_members s group_id = R.del s (key group_id)

  -- `MemberCache`, as the handlers of messages and rooms take it.
  abbrev pub redis_cache : MemberCache
  redis_cache = record {
    State = R.State;
    enabled = true;
    get = get_members;
    set = set_members;
    invalidate = invalidate_members;
    holds = λ s group_id. ids_of (R.value s (key group_id));
  }
