-- ===== src/Call/Token.antt =====
-- internal/call/token.go, and `roomName` of internal/call/handler.go. Signing is golang-jwt's, which the
-- definitions take as a function that may fail. A date of a token is a number of seconds.
use chatroom_server.Text.Decimal.{format_int}
use chatroom_server.Base.{ℕ, ◌+◌, ◌/◌, String, true, Bool, Option}
use chatroom_server.Message.Recall.{second}
use Prim.Native.String.{◌++◌}

pub record VideoGrant : Type 0 where
  pub room_join : Bool
  pub room : String
  pub can_publish : Bool
  pub can_subscribe : Bool

pub record AccessTokenClaims : Type 0 where
  pub video : VideoGrant
  pub issuer : String
  pub subject : String
  pub issued_at : ℕ
  pub not_before : ℕ
  pub expires_at : ℕ

-- `roomName`
unfoldable pub room_name : ℕ → String
room_name room_id = "room-" ++ format_int room_id

-- The claims that `mintToken` signs.
abbrev pub claims_of : String → String → String → ℕ → ℕ → AccessTokenClaims
claims_of api_key identity room ttl now = record {
  video = record { room_join = true; room = room; can_publish = true; can_subscribe = true };
  issuer = api_key;
  subject = identity;
  issued_at = now / second;
  not_before = now / second;
  expires_at = (now + ttl) / second;
}

module _ (sign : AccessTokenClaims → String → Option String) where
  -- `mintToken`
  unfoldable pub mint_token : String → String → String → String → ℕ → ℕ → Option String
  mint_token api_key api_secret identity room ttl now =
      sign (claims_of api_key identity room ttl now) api_secret
