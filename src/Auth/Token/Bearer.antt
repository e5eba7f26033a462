-- ===== src/Auth/Token/Bearer.antt =====
-- Which requests the middleware of internal/auth/middleware.go lets through.
use chatroom_server.Base.{
  ℕ, ◌+◌, ◌/◌, ◌<◌, ◌≡◌, ◌≢◌, ◌∙◌, refl, sym, ap, String, true, some, arith, Bool-cases,
  Option-cases, inl, inr,
}
use chatroom_server.Action.{Result, Action}
use chatroom_server.MemberCache.{MemberCache}
use chatroom_server.World.{World, Handler, serve, response_of}
use chatroom_server.Http.{Response}
use chatroom_server.Message.Recall.{second}
use chatroom_server.Auth.Token.{
  Jwt, IsJwt, bearer, pass, generate_token, parse_token, middleware, middleware_at,
}
use Prim.Native.String.{◌++◌, slice, len}
use text.Mathlib.Text.{starts_with}
use text.Mathlib.TextEquality.{starts_with_iff}
use text.Mathlib.TextLemmas.{prefix-append}
use text.Mathlib.TextPositions.{len-append, slice-append_right}

-- What stands after the prefix.
pub after_bearer : (t : String) → slice (bearer ++ t) (len bearer) (len (bearer ++ t)) ≡ t
after_bearer t =
    ap (slice (bearer ++ t) (len bearer)) (len-append bearer t) ∙ slice-append_right bearer t

starts : (t : String) → starts_with (bearer ++ t) bearer ≡ true
starts t = (starts_with_iff (bearer ++ t) bearer).1 (prefix-append bearer t)

abbrev status_of : {C : MemberCache} → Result Response Response × World C → ℕ
status_of (r, w) = (response_of r).status

-- A request with a token that `GenerateToken` gave out for a user reaches the handler as that user's
-- until the token expires.
pub middleware_at-generate_token :
    {T : Type 0} (jwt : Jwt) (secret : String) (next : ℕ → Action T Response Response) (w : T)
    (now uid ttl issued : ℕ) (t : String)
    → IsJwt jwt
    → generate_token jwt uid secret ttl issued ≡ some t
    → now / second < (issued + ttl) / second
    → middleware_at jwt secret now next (bearer ++ t) w ≡ next uid w
unfolding generate_token parse_token
middleware_at-generate_token jwt secret next w now uid ttl issued t lawful e valid =
    rw (starts t, after_bearer t)
      (ground (
        arith,
        lawful.parse-sign
            (record {
              uid = uid;
              issued_at = issued / second;
              expires_at = (issued + ttl) / second;
            })
            secret t now e valid,
      ))

module _ {C : MemberCache} (jwt : Jwt) (secret : String) (next : ℕ → Handler C Response)
    (w : World C) where
  past_prefix :
      (t : String)
      → middleware jwt secret next (bearer ++ t) w
        ≡ pass jwt next (parse_token jwt t secret w.now) w
  unfolding middleware
  past_prefix t = rw (starts t, after_bearer t) refl

  -- A request that is answered with another status than 401 carries a valid token, and the handler has
  -- run as that token's user.
  pub middleware-checks :
      (header : String)
      → (serve (middleware jwt secret next header) w).0.status ≢ 401
      → (t : String) × (uid : ℕ) × (header ≡ bearer ++ t)
        × (parse_token jwt t secret w.now ≡ some uid)
        × (middleware jwt secret next header w ≡ next uid w)
  middleware-checks header h = elim (Bool-cases (starts_with header bearer)) [
    | inr e ↦ absurd (h (unfold middleware in ground (arith, e)))
    | inl e ↦
        let (t, split) = (starts_with_iff header bearer).0 e in
        let passes = ap (λ x. middleware jwt secret next x w) (sym split) ∙ past_prefix t in
        elim (Option-cases (parse_token jwt t secret w.now)) [
          | inl bad ↦ absurd (h (ap status_of passes ∙ ground (arith, bad)))
          | inr (uid, good) ↦ (t, uid, sym split, good, passes ∙ ground (arith, good))
        ]
  ]
