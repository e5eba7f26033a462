-- ===== src/Config/Overrides.antt =====
-- How the sources of a setting rank, and how long a token lives: internal/config/config.go.
use chatroom_server.Base.{
  ℕ, ◌*◌, ◌≤◌, ◌≡◌, ◌≢◌, sym, ap, ◌∙◌, ◌↔◌, Option-cases, Bool-cases, inl, inr, String, false,
  Option, none, some, if◌then◌else◌, arith,
}
use chatroom_server.Base.Int.{pos}
use chatroom_server.Text.Decimal.{format_int}
use chatroom_server.Text.Json.{max_int64}
use chatroom_server.Text.Atoi.RoundTrip.{atoi-format_int}
use chatroom_server.Text.Atoi.{atoi}
use chatroom_server.Config.{
  Config, defaults, second, apply_env_overrides, load, from_file, overridden,
}
use text.Mathlib.TextEquality.{eq_iff}
use text.Mathlib.Text.{◌==◌}

-- The text of a number is not empty.
format_int-ne-empty : (n : ℕ) → n ≤ max_int64 → (format_int n == "") ≡ false
unfolding atoi
format_int-ne-empty n h = elim (Bool-cases (format_int n == "")) [
  | inr e ↦ e
  | inl e ↦
      let none_here : none ≡ some (pos n) =
        ap atoi (sym ((eq_iff (format_int n) "").0 e)) ∙ atoi-format_int n h in
      cc
]

apply-jwt_ttl :
    (env : String → String) (cfg : Config) (n : ℕ)
    → env "CHATROOM_JWT_TTL_SECONDS" ≡ format_int n
    → n * second ≤ max_int64
    → (apply_env_overrides env cfg).jwt_ttl ≡ pos (n * second)
unfolding apply_env_overrides
apply-jwt_ttl env cfg n e small =
    rw (e, format_int-ne-empty n (omega arith), atoi-format_int n (omega arith)) (ground arith)

-- Where `Load` gives a configuration, and the environment has a lifetime of `n` seconds that a duration can
-- hold, that is the lifetime of the configuration, whatever the file says.
pub load-jwt_ttl :
    (file : String → Option String) (decode : String → Config → Option Config)
    (env : String → String) (path : String) (cfg : Config) (n : ℕ)
    → load file decode env path ≡ some cfg
    → env "CHATROOM_JWT_TTL_SECONDS" ≡ format_int n
    → n * second ≤ max_int64
    → cfg.jwt_ttl ≡ pos (n * second)
unfolding load
load-jwt_ttl file decode env path cfg n h e small =
    from_base (if path == "" then some defaults else from_file file decode env (file path)) h
  where
    from_base :
        (o : Option Config)
        → overridden file decode env o ≡ some cfg
        → cfg.jwt_ttl ≡ pos (n * second)
    from_base none h = cc
    from_base (some base) h =
        let r : (apply_env_overrides env base).jwt_ttl ≡ cfg.jwt_ttl = ground (arith, h) in
        sym r ∙ apply-jwt_ttl env base n e small

-- `Load` fails exactly if a path is given, its file can be read, and what it holds cannot be decoded.
pub load_error :
    (file : String → Option String) (decode : String → Config → Option Config)
    (env : String → String) (path : String)
    → (load file decode env path ≡ none)
      ↔ ((path ≢ "") × ((d : String) × (file path ≡ some d) × (decode d defaults ≡ none)))
unfolding load
load_error file decode env path = (to, from)
  where
    to :
        load file decode env path ≡ none
        → (path ≢ "") × ((d : String) × (file path ≡ some d) × (decode d defaults ≡ none))
    to h = elim (Option-cases (file path)) [
      | inl e ↦ absurd (ground (arith, e, eq_iff path ""))
      | inr (d, e) ↦ (ground (arith, e, eq_iff path ""), (d, e, ground (arith, e)))
    ]

    from :
        (path ≢ "") × ((d : String) × (file path ≡ some d) × (decode d defaults ≡ none))
        → load file decode env path ≡ none
    from (given, (d, e, bad)) = ground (arith, e, bad, eq_iff path "")
