-- ===== src/Server/Run.antt =====
-- The server at work: requests and connections, one after the other.
pub mod Invariants
pub mod Owner
pub mod Private
use chatroom_server.Base.{ℕ, Bool, true, Option, List, [], ◌∷◌, String}
use chatroom_server.MemberCache.{MemberCache}
use chatroom_server.World.{World, serve}
use chatroom_server.Http.{Response}
use chatroom_server.Ws.Hub.{Hub}
use chatroom_server.Ws.Handler.{Handshake, unauthorized, rejected, serving, handshake, leave}
use chatroom_server.Server.Requests.{Parts, Request, respond}

-- A request at a time, an attempt to connect with a token at a time, and the end of a connection.
pub data Event : Type 0 where
  request : ℕ → Request → Event
  connect : String → ℕ → Option ℕ → Event
  hang_up : ℕ → ℕ → Event

-- The hub after a handshake.
abbrev pub joined : Handshake → Hub → Hub
joined unauthorized h = h
joined rejected h = h
joined (serving uid c h') h = h'

module _ {C : MemberCache} (P : Parts) where
  abbrev pub answer : ℕ → Request → World C → Response × World C
  answer now req w = serve (respond P req) (record w { now = now })

  abbrev pub happen : Event → World C → World C
  happen (request now req) w = (answer now req w).1
  happen (connect token now upgraded) w = record w {
    hub = joined (handshake P.jwt P.secret token now upgraded w.hub) w.hub;
  }
  happen (hang_up uid c) w = record w { hub = leave uid c w.hub }

  -- The world after the events.
  abbrev pub run : List Event → World C → World C
  run [] w = w
  run (e ∷ es) w = run es (happen e w)
