-- ===== src/Tests/Accounts.antt =====
-- Requests of internal/auth at the small database, with a token service that knows one user and one
-- hour, and a hash that puts a mark in front of the password.
use chatroom_server.Base.{
  ℕ, ◌*◌, ◌/◌, ◌≡◌, refl, String, ◌&&◌, none, some, ◌==◌, if◌then◌else◌, ltb, arith,
}
use chatroom_server.Base.Rows.{IsUnique}
use chatroom_server.Action.{ok}
use chatroom_server.World.{World, Handler, serve}
use chatroom_server.Http.{Response, write_json, new_uid, login_token}
use chatroom_server.Message.Recall.{second}
use chatroom_server.Auth.Store
use chatroom_server.Auth.Store.{has_user_id, with_profile}
use chatroom_server.Auth.Token.{Claims, Jwt, IsJwt, bearer, generate_token, parse_token, middleware}
use chatroom_server.Auth.Token.Bearer.{middleware-checks}
use chatroom_server.Auth.Handler.{
  RegisterRequest, Bcrypt, IsBcrypt, handle_register, handle_login, handle_update_profile,
}
use chatroom_server.Auth.Handler.Accounts.{
  registered, same_name, handle_login-handle_register, create_user-IsUnique,
}
use chatroom_server.Tests.Data.{memory_cache, world}
use Prim.Native.String.{◌++◌}
use text.Mathlib.Text.{◌==◌ as str_eq}
use text.Mathlib.TextEquality.{eq_iff}

program : Unit {0}
unfolding handle_register handle_login handle_update_profile Store.create_user
    Store.get_user_by_username Store.get_users_by_ids Store.update_profile generate_token
    parse_token middleware
program = tt

abbrev hour : ℕ
hour = 3600

abbrev first_user : Claims
first_user = record { uid = 6; issued_at = 0; expires_at = hour }

abbrev pub jwt : Jwt
jwt = record {
  sign = λ c secret.
      if c.uid == 6 && (c.issued_at == 0 && c.expires_at == hour) then some "token" else none;
  parse =
      λ t secret now. if str_eq t "token" && ltb (now / second) hour then some first_user else none;
}

pub jwt-IsJwt : IsJwt jwt
jwt-IsJwt = record {
  parse-sign = λ c secret t now signed valid.
      ground (arith, (eq_iff t "token").1, (eq_iff "token" "token").1 refl);
}

abbrev pub bcrypt : Bcrypt
bcrypt = record { hash = λ p. some ("#" ++ p); check = λ h p. str_eq h ("#" ++ p) }

bcrypt-IsBcrypt : IsBcrypt bcrypt
bcrypt-IsBcrypt = record {
  check-hash = λ p h e. ground (arith, (eq_iff ("#" ++ p) ("#" ++ p)).1 refl);
}

abbrev pub collate : String → String
collate name = name

abbrev ann : RegisterRequest
ann = record { username = "ann"; password = "secret"; nickname = "" }

abbrev after : World memory_cache
after = (registered collate bcrypt ann world).1

name_taken : (registered collate bcrypt ann after).0.status ≡ 409
unfolding program
name_taken = refl

handle_login-handle_register_example :
    ((registered collate bcrypt ann world).0.body ≡ new_uid 6)
    × ((serve
          (handle_login collate bcrypt jwt "key"
            (hour * second)
            (some (record { username = "ann"; password = "secret" })))
          (record after { now = 60 })).0
        ≡ write_json 200 (login_token "token"))
unfolding program
handle_login-handle_register_example =
    handle_login-handle_register collate bcrypt ann world jwt "key" "token" (hour * second) 60
      bcrypt-IsBcrypt refl refl refl

-- A handler behind the middleware that answers with the caller's uid.
abbrev whoami : ℕ → Handler memory_cache Response
whoami uid w = (ok (write_json 200 (new_uid uid)), w)

middleware-checks_example :
    (t : String) × (uid : ℕ) × ("Bearer token" ≡ bearer ++ t)
    × (parse_token jwt t "key" 50 ≡ some uid)
    × (middleware jwt "key" whoami "Bearer token" world ≡ whoami uid world)
unfolding program
middleware-checks_example = middleware-checks jwt "key" whoami world "Bearer token" (omega arith)

create_user-IsUnique_example :
    IsUnique
      (same_name collate)
      (Store.create_user collate "bob" "#" "bob" after.session).1.tables.users
    × IsUnique (same_name collate) (Store.update_profile 6 "bob" "b" after.session).1.tables.users
unfolding program
create_user-IsUnique_example =
    create_user-IsUnique collate "bob" "#" "bob" "b" 6 after.session (refl, tt)
