-- ===== src/Auth/Token.antt =====
-- internal/auth/jwt.go and middleware.go. Signing and parsing are golang-jwt's, which the definitions take
-- as functions that may fail; a date of a token is a number of seconds.
pub mod Bearer
use chatroom_server.Base.{
  ℕ, ◌+◌, ◌/◌, ◌<◌, ◌≡◌, String, Bool, not, Option, none, some, if◌then◌else◌,
}
use chatroom_server.Action.{Result, ok, err, Action}
use chatroom_server.World.{World, Handler}
use chatroom_server.MemberCache.{MemberCache}
use chatroom_server.Http.{Response, write_error, unauthorized}
use chatroom_server.Message.Recall.{second}
use Prim.Native.String.{slice, len}
use text.Mathlib.Text.{starts_with}

pub record Claims : Type 0 where
  pub uid : ℕ
  pub issued_at : ℕ
  pub expires_at : ℕ

-- golang-jwt with HS256. `parse` is given the time, and gives the claims of a valid token.
pub record Jwt : Type 0 where
  pub sign : Claims → String → Option String
  pub parse : String → String → ℕ → Option Claims

-- A token that has been signed is valid for its secret until it expires.
pub record IsJwt (jwt : Jwt) : Type 0 where
  pub parse-sign :
      (c : Claims) (secret t : String) (now : ℕ)
      → jwt.sign c secret ≡ some t
      → now / second < c.expires_at
      → jwt.parse t secret now ≡ some c

abbrev pub uid_of_claims : Option Claims → Option ℕ
uid_of_claims none = none
uid_of_claims (some c) = some c.uid

abbrev pub bearer : String
bearer = "Bearer "

module _ (jwt : Jwt) where
  -- `GenerateToken`
  unfoldable pub generate_token : ℕ → String → ℕ → ℕ → Option String
  generate_token uid secret ttl now =
      jwt.sign (record { uid = uid; issued_at = now / second; expires_at = (now + ttl) / second })
        secret

  -- `ParseToken`
  unfoldable pub parse_token : String → String → ℕ → Option ℕ
  parse_token t secret now = uid_of_claims (jwt.parse t secret now)

  -- The handler behind the check of the token, or the refusal.
  abbrev pub pass :
      {S : Type 0} → (ℕ → Action S Response Response) → Option ℕ → Action S Response Response
  pass next none w = (err (write_error unauthorized "invalid token"), w)
  pass next (some uid) w = next uid w

  -- What `Middleware` returns, at a time and for handlers over any state. A missing header is empty.
  abbrev pub middleware_at :
      {S : Type 0}
      → String
      → ℕ
      → (ℕ → Action S Response Response)
      → String
      → Action S Response Response
  middleware_at secret now next header w =
      if not (starts_with header bearer)
      then (err (write_error unauthorized "missing bearer token"), w)
      else pass next (parse_token (slice header (len bearer) (len header)) secret now) w

  -- `Middleware`: `next` gets the uid that `UIDFromContext` gives it.
  unfoldable pub middleware :
      {C : MemberCache} → String → (ℕ → Handler C Response) → String → Handler C Response
  middleware secret next header w = middleware_at secret w.now next header w
