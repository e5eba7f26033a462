-- ===== src/Tests/Sockets.antt =====
-- A connection of internal/ws that is made and that ends.
use chatroom_server.Base.{◌≡◌, refl, true, false, some, [], ◌∷◌}
use chatroom_server.Auth.Token.{parse_token}
use chatroom_server.Ws.Hub.{Hub, new_hub, register, unregister, send_to_users}
use chatroom_server.Ws.Handler.{unauthorized, handshake, leave}
use chatroom_server.Ws.Handler.Live.{here, next, connect, hang_up, send, IsTracked, Reach-IsTracked}
use chatroom_server.Tests.Accounts.{jwt}

program : Unit {0}
unfolding parse_token register unregister handshake leave send_to_users
program = tt

forged : handshake jwt "key" "forged" 50 (some 12) new_hub ≡ unauthorized
unfolding program
forged = refl

abbrev first : Hub
first = register 6 12 new_hub

abbrev second : Hub
second = register 6 13 first

-- User 6 connects twice, gets a push, and ends the first connection.
Reach-IsTracked_example :
    IsTracked
      (record { hub = leave 6 12 (send_to_users (6 ∷ []) "x" second); calls = (6, 13) ∷ [] })
unfolding program
Reach-IsTracked_example = Reach-IsTracked {jwt = jwt} {secret = "key"} (
    next
      (next
        (next (next here (connect "token" 50 (some 12) 6 12 first refl refl))
          (connect "token" 60 (some 13) 6 13 second refl refl))
        (send (6 ∷ []) "x"))
      (hang_up 6 12 (true ∷ (false ∷ [])) refl refl))
