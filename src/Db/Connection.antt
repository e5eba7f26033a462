-- ===== src/Db/Connection.antt =====
-- internal/db/db.go. Connections are sqlx's and the driver's, and migrations are golang-migrate's; the
-- definitions take both as records of operations.
use chatroom_server.Base.{
  ℕ, ◌*◌, ◌≡◌, String, Bool, true, false, Option, none, some, arith, Option-cases, inl, inr,
}
use Prim.Native.String.{◌++◌}

-- `sqlx.DB`: opening and testing a connection, and the setters of the pool.
pub record Pool : Type 1 where
  pub Handle : Type 0
  pub connect : String → String → Option Handle
  pub set_max_open_conns : ℕ → Handle → Handle
  pub set_max_idle_conns : ℕ → Handle → Handle
  pub set_conn_max_lifetime : ℕ → Handle → Handle

-- How `Up` may fail.
pub data UpError : Type 0 where
  no_change failed : UpError

-- `iofs.New` on the embedded files, `migrate.NewWithSourceInstance`, and an instance's `Up` and `Close`.
-- `version` is the version of the database's schema.
pub record Migrations : Type 1 where
  pub Source : Type 0
  pub Instance : Type 0
  pub State : Type 0
  pub source : String → Option Source
  pub new_instance : String → Source → String → State → Option Instance × State
  pub up : Instance → State → Option UpError × State
  pub close : Instance → State → State
  pub version : State → ℕ

-- What golang-migrate documents: after an `Up` without an error, or with no change to make, the schema is
-- at the newest version of the files, and closing does not change it.
pub record IsMigrations (M : Migrations) (newest : ℕ) : Type 0 where
  pub up-done :
      (i : M.Instance) (s : M.State) → (M.up i s).0 ≡ none → M.version (M.up i s).1 ≡ newest
  pub up-no_change :
      (i : M.Instance) (s : M.State)
      → (M.up i s).0 ≡ some no_change
      → M.version (M.up i s).1 ≡ newest
  pub version-close : (i : M.Instance) (s : M.State) → M.version (M.close i s) ≡ M.version s

abbrev pub minute : ℕ
minute = 60 * 1_000_000_000

module _ (L : Pool) where
  abbrev pub bounded : L.Handle → L.Handle
  bounded db =
      L.set_conn_max_lifetime (5 * minute) (L.set_max_idle_conns 10 (L.set_max_open_conns 25 db))

  abbrev pub pooled : Option L.Handle → Option L.Handle
  pooled none = none
  pooled (some db) = some (bounded db)

  -- `Connect`
  unfoldable pub connect : String → Option L.Handle
  connect dsn = pooled (L.connect "mysql" dsn)

-- `err != nil && err != migrate.ErrNoChange`, negated.
abbrev pub is_up : Option UpError → Bool
is_up none = true
is_up (some no_change) = true
is_up (some failed) = false

module _ (M : Migrations) where
  -- `m.Up()` and the deferred `m.Close()`
  abbrev pub bring_up : Option M.Instance × M.State → Bool × M.State
  bring_up (none, s) = (false, s)
  bring_up (some i, s) = let (e, s') = M.up i s in (is_up e, M.close i s')

  abbrev pub open_from : Option M.Source → String → M.State → Bool × M.State
  open_from none dsn s = (false, s)
  open_from (some src) dsn s = bring_up (M.new_instance "iofs" src ("mysql://" ++ dsn) s)

  -- `Migrate`: true for no error.
  unfoldable pub migrate : String → M.State → Bool × M.State
  migrate dsn s = open_from (M.source "migrations") dsn s

  -- Where `Migrate` succeeds, the schema is at the newest version.
  pub migrate-newest :
      (newest : ℕ)
      → IsMigrations M newest
      → (dsn : String) (s : M.State) → (migrate dsn s).0 ≡ true
      → M.version (migrate dsn s).1 ≡ newest
  unfolding migrate
  migrate-newest newest lawful dsn s h = elim (Option-cases (M.source "migrations")) [
    | inl bad ↦ absurd (ground (arith, h, bad))
    | inr (src, files) ↦ elim (Option-cases (M.new_instance "iofs" src ("mysql://" ++ dsn) s).0) [
      | inl bad ↦ absurd (ground (arith, h, files, bad))
      | inr (i, opened) ↦
          let s' = (M.new_instance "iofs" src ("mysql://" ++ dsn) s).1 in
          elim (Option-cases (M.up i s').0) [
            | inl fine ↦ ground (
              arith,
              files,
              opened,
              lawful.up-done i s' fine,
              lawful.version-close i (M.up i s').1,
            )
            | inr (no_change, kept) ↦ ground (
              arith,
              files,
              opened,
              lawful.up-no_change i s' kept,
              lawful.version-close i (M.up i s').1,
            )
            | inr (failed, e) ↦ absurd (ground (arith, h, files, opened, e))
          ]
    ]
  ]
