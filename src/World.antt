-- ===== src/World.antt =====
-- What a request can change, and the steps of a handler over it.
use chatroom_server.Base.{ℕ}
use chatroom_server.Action.{Result, ok, err, Action}
use chatroom_server.Db.{DbError, Session, Sql}
use chatroom_server.MemberCache.{MemberCache}
use chatroom_server.Ws.Hub.{Hub}
use chatroom_server.Http.{Response}

-- The database session, the cache, the hub, and what `time.Now()` returns in the request, whose reads
-- of the clock count as one.
pub record World (C : MemberCache) : Type 0 where
  pub session : Session
  pub cache : C.State
  pub hub : Hub
  pub now : ℕ

abbrev pub Handler : MemberCache → Type 0 → Type 0
Handler C A = Action (World C) Response A

-- A call of a store.
abbrev pub sql : {C : MemberCache} {A : Type 0} → Sql A → Action (World C) DbError A
sql m w = let (r, s) = m w.session in (r, record w { session = s })

-- The response of a handler, whether its last line or an early return wrote it.
abbrev pub response_of : Result Response Response → Response
response_of (ok r) = r
response_of (err r) = r

abbrev pub serve : {C : MemberCache} → Handler C Response → World C → Response × World C
serve h w = let (r, w') = h w in (response_of r, w')
