-- ===== src/Ws/Handler.antt =====
-- internal/ws/handler.go: `serveWS`. The upgrade and the connection are gorilla/websocket's: `upgraded`
-- is the connection that the upgrade gives, if it gives one, and `reads` is what the calls of
-- `ReadMessage` do one after the other, true for a message and false for an error.
pub mod Live
use chatroom_server.Base.{ℕ, String, Bool, true, false, Option, none, some, List, [], ◌∷◌}
use chatroom_server.Auth.Token.{Jwt, parse_token}
use chatroom_server.Ws.Hub.{Hub, register, unregister}

-- How the part before the loop ends: with status 401, with the upgrader's own answer, or in the loop.
pub data Handshake : Type 0 where
  unauthorized rejected : Handshake
  serving : ℕ → ℕ → Hub → Handshake

abbrev pub upgrade : ℕ → Option ℕ → Hub → Handshake
upgrade uid none h = rejected
upgrade uid (some c) h = serving uid c (register uid c h)

abbrev pub enter : Option ℕ → Option ℕ → Hub → Handshake
enter none upgraded h = unauthorized
enter (some uid) upgraded h = upgrade uid upgraded h

-- The loop: true once a read has failed. What is read is discarded.
abbrev pub has_ended : List Bool → Bool
has_ended [] = false
has_ended (true ∷ reads) = has_ended reads
has_ended (false ∷ reads) = true

-- The deferred call.
unfoldable pub leave : ℕ → ℕ → Hub → Hub
unfolding unregister
leave uid c h = unregister uid c h

module _ (jwt : Jwt) (secret : String) where
  -- `serveWS` up to the loop.
  unfoldable pub handshake : String → ℕ → Option ℕ → Hub → Handshake
  unfolding parse_token register
  handshake token now upgraded h = enter (parse_token jwt token secret now) upgraded h
