-- ===== src/Storage.antt =====
-- internal/storage: the store of binary objects (store.go), and its implementation by a MinIO bucket
-- (minio.go) over minio-go's client, which the definitions take as a record of operations.
pub mod Bucket
use chatroom_server.Base.{
  ℕ, ◌≤◌, ◌≡◌, ◌≢◌, String, Bool, true, false, Option, none, some, List, take, length,
  if◌then◌else◌,
}

pub record Object : Type 0 where
  pub content : List ℕ
  pub content_type : String

-- `Store`. `put` returns true if it succeeds; `get` gives none on an error.
pub record Store : Type 1 where
  pub State : Type 0
  pub put : State → String → List ℕ → ℕ → String → Bool × State
  pub get : State → String → Option Object × State
  -- The object of a key, if there is one.
  pub held : State → String → Option Object

-- What the handlers rely on: a `Put` that succeeds has read the size that it was given, and stores that
-- much; no other key changes; and a `Get` that succeeds gives what is stored, and changes nothing.
pub record IsStore (S : Store) : Type 0 where
  pub held-put :
      (s : S.State) (k : String) (data' : List ℕ) (size : ℕ) (content_type : String)
      → (S.put s k data' size content_type).0 ≡ true
      → S.held (S.put s k data' size content_type).1 k
        ≡ some (record { content = take size data'; content_type = content_type })
  pub held-put_ne :
      (s : S.State) (k j : String) (data' : List ℕ) (size : ℕ) (content_type : String)
      → j ≢ k
      → S.held (S.put s k data' size content_type).1 j ≡ S.held s j
  pub get-held :
      (s : S.State) (k : String) (o : Object) → (S.get s k).0 ≡ some o → S.held s k ≡ some o
  pub held-get : (s : S.State) (k j : String) → S.held (S.get s k).1 j ≡ S.held s j

-- The operations of `minio.Client`. `bucket_exists` gives none on an error; `stat` gives none on an
-- error, and else the type; `get_object` opens the object, whose first use `Stat` is.
pub record Minio : Type 1 where
  pub State : Type 0
  pub bucket_exists : State → String → Option Bool × State
  pub make_bucket : State → String → Bool × State
  pub put_object : State → String → String → List ℕ → ℕ → String → Bool × State
  pub get_object : State → String → String → Option (List ℕ) × State
  pub stat : State → String → String → Option String × State
  pub has_bucket : State → String → Bool
  pub object : State → String → String → Option Object

module _ (M : Minio) where
  abbrev pub made : String → Bool × M.State → Option String × M.State
  made bucket (true, s) = (some bucket, s)
  made bucket (false, s) = (none, s)

  abbrev pub ensured : String → Option Bool × M.State → Option String × M.State
  ensured bucket (none, s) = (none, s)
  ensured bucket (some true, s) = (some bucket, s)
  ensured bucket (some false, s) = made bucket (M.make_bucket s bucket)

  -- `NewMinioStore`, with a client that `minio.New` gave: the bucket of the store, or none on an error.
  unfoldable pub new_minio_store : String → M.State → Option String × M.State
  new_minio_store bucket s = ensured bucket (M.bucket_exists s bucket)

  -- `Put`
  abbrev pub put : String → M.State → String → List ℕ → ℕ → String → Bool × M.State
  put bucket s key data' size content_type = M.put_object s bucket key data' size content_type

  abbrev pub typed : List ℕ → Option String × M.State → Option Object × M.State
  typed data' (none, s) = (none, s)
  typed data' (some t, s) = (some (record { content = data'; content_type = t }), s)

  abbrev pub opened : String → String → Option (List ℕ) × M.State → Option Object × M.State
  opened bucket key (none, s) = (none, s)
  opened bucket key (some data', s) = typed data' (M.stat s bucket key)

  -- `Get`
  unfoldable pub get : String → M.State → String → Option Object × M.State
  get bucket s key = opened bucket key (M.get_object s bucket key)

  -- `MinioStore` as a `Store`.
  abbrev pub minio_store : String → Store
  minio_store bucket = record {
    State = M.State;
    put = put bucket;
    get = get bucket;
    held = λ s key. M.object s bucket key;
  }
