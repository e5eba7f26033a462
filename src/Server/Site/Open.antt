-- ===== src/Server/Site/Open.antt =====
-- What a request changes without a token.
use chatroom_server.Base.{ℕ, ◌≡◌, ◌⊎◌, String, some, []}
use chatroom_server.Db.{Tables}
use chatroom_server.Action.{Action}
use chatroom_server.MemberCache.{MemberCache}
use chatroom_server.World.{World}
use chatroom_server.Storage.{Store, IsStore}
use chatroom_server.Media.Handler as Media
use chatroom_server.Auth.Token.{Jwt, bearer, parse_token}
use chatroom_server.Auth.Store as Users
use chatroom_server.Ws.Hub.{Hub}
use chatroom_server.Server.Requests.{Parts}
use chatroom_server.Server.Site.Registration.{IsRegistration}
use chatroom_server.Server.Site.{HttpRequest, Moment, Decoders, Site, MediaParts}
use Prim.Native.String.{◌++◌}

-- A token in a request's header that is valid for a user at a time.
abbrev pub HasToken : Jwt → String → ℕ → HttpRequest → Type 0
HasToken jwt secret now r =
    (t : String) × ((uid : ℕ) × ((r.authorization ≡ bearer ++ t)
        × (parse_token jwt t secret now ≡ some uid)))

-- The tables without the accounts.
abbrev pub but_users : Tables → Tables
but_users t = record t { users = []; next = record t.next { user = 0 } }

module _ {C : MemberCache} {S : Store} where
  -- Nothing but accounts has changed, and nothing has been pushed.
  pub record IsSpared (s s' : Site C S) : Type 0 where
    pub tables : but_users s'.world.session.tables ≡ but_users s.world.session.tables
    pub cache : s'.world.cache ≡ s.world.cache
    pub pushes : s'.world.hub.sent ≡ s.world.hub.sent
    pub files : (id : String) → S.held s'.files id ≡ S.held s.files id

  -- Not even an account has.
  pub record IsUntouched (s s' : Site C S) : Type 0 where
    pub spared : IsSpared s s'
    pub users : s'.world.session.tables ≡ s.world.session.tables

module _ {C : MemberCache} {S : Store} (lawful : IsStore S) (P : Parts) where
  module _ (M : MediaParts) (D : Decoders) (r : HttpRequest) (m : Moment) (s : Site C S) where
    -- What the answer to a request may be worth.
    abbrev Outcome : Site C S → Type 0
    Outcome s' =
        HasToken P.jwt P.secret m.now r ⊎ ((IsRegistration r × IsSpared s s') ⊎ IsUntouched s s')
