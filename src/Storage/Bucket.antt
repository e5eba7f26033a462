-- ===== src/Storage/Bucket.antt =====
-- The store over a MinIO bucket keeps the laws of a store: internal/storage/minio.go.
use chatroom_server.Base.{
  ℕ, ◌≡◌, ◌≢◌, String, true, some, List, take, arith, Option-cases, inl, inr,
}
use chatroom_server.Storage.{Object, IsStore, Minio, new_minio_store, get, minio_store}

-- What minio-go documents of the operations that the code uses.
pub record IsMinio (M : Minio) : Type 0 where
  pub exists-has :
      (s : M.State) (b : String)
      → (M.bucket_exists s b).0 ≡ some true
      → M.has_bucket (M.bucket_exists s b).1 b ≡ true
  pub make-has :
      (s : M.State) (b : String)
      → (M.make_bucket s b).0 ≡ true
      → M.has_bucket (M.make_bucket s b).1 b ≡ true
  pub object-put :
      (s : M.State) (b k : String) (data' : List ℕ) (size : ℕ) (content_type : String)
      → (M.put_object s b k data' size content_type).0 ≡ true
      → M.object (M.put_object s b k data' size content_type).1 b k
        ≡ some (record { content = take size data'; content_type = content_type })
  pub object-put_ne :
      (s : M.State) (b k j : String) (data' : List ℕ) (size : ℕ) (content_type : String)
      → j ≢ k
      → M.object (M.put_object s b k data' size content_type).1 b j ≡ M.object s b j
  pub get-object :
      (s : M.State) (b k : String) (data' : List ℕ)
      → (M.get_object s b k).0 ≡ some data'
      → (o : Object) × (M.object s b k ≡ some o) × (o.content ≡ data')
  pub object-get :
      (s : M.State) (b k j : String) → M.object (M.get_object s b k).1 b j ≡ M.object s b j
  pub stat-object :
      (s : M.State) (b k t : String)
      → (M.stat s b k).0 ≡ some t
      → (o : Object) × (M.object s b k ≡ some o) × (o.content_type ≡ t)
  pub object-stat : (s : M.State) (b k j : String) → M.object (M.stat s b k).1 b j ≡ M.object s b j

module _ (M : Minio) (lawful : IsMinio M) (b : String) where
  get-held :
      (s : M.State) (k : String) (o : Object) → (get M b s k).0 ≡ some o → M.object s b k ≡ some o
  unfolding get
  get-held s k o h = elim (Option-cases (M.get_object s b k).0) [
    | inl e ↦ ground (arith, e)
    | inr (data', e) ↦ elim (Option-cases (M.stat (M.get_object s b k).1 b k).0) [
      | inl f ↦ ground (arith, e, f)
      | inr (t, f) ↦
          let (p, at_p, content) = lawful.get-object s b k data' e in
          let (q, at_q, type) = lawful.stat-object (M.get_object s b k).1 b k t f in
          ground (arith, e, f, at_p, content, at_q, type, lawful.object-get s b k k)
    ]
  ]

  held-get : (s : M.State) (k j : String) → M.object (get M b s k).1 b j ≡ M.object s b j
  unfolding get
  held-get s k j =
      ground (arith, lawful.object-get s b k j, lawful.object-stat (M.get_object s b k).1 b k j)

  -- Over a client that keeps its documented laws, a bucket is a store as the media handlers rely on it.
  pub minio_store-IsStore : IsStore (minio_store M b)
  minio_store-IsStore = record {
    held-put = λ s k. lawful.object-put s b k;
    held-put_ne = λ s k j. lawful.object-put_ne s b k j;
    get-held = get-held;
    held-get = held-get;
  }

  pub new_minio_store-same : (s : M.State) (c : String) → (new_minio_store M b s).0 ≡ some c → c ≡ b
  unfolding new_minio_store
  new_minio_store-same s c h = ground arith

  -- A store that `NewMinioStore` gives has its bucket.
  pub new_minio_store-has_bucket :
      (s : M.State)
      → (new_minio_store M b s).0 ≡ some b
      → M.has_bucket (new_minio_store M b s).1 b ≡ true
  unfolding new_minio_store
  new_minio_store-has_bucket s h =
      ground (arith, lawful.exists-has s b, lawful.make-has (M.bucket_exists s b).1 b)
