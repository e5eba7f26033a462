-- ===== src/Auth/Handler/Login.antt =====
-- Whom `handleLogin` of internal/auth/handler.go gives a token, and for whom.
use chatroom_server.Base.{
  ℕ, ◌≡◌, refl, String, true, none, some, Option, find?, arith, Bool-cases, Option-cases, inl, inr,
}
use chatroom_server.MemberCache.{MemberCache}
use chatroom_server.World.{World, serve}
use chatroom_server.Http.{login_token}
use chatroom_server.Auth.Model.{User}
use chatroom_server.Auth.Store
use chatroom_server.Auth.Store.{is_named}
use chatroom_server.Auth.Token.{Jwt, generate_token}
use chatroom_server.Auth.Handler.{LoginRequest, Bcrypt, handle_login}

module _ {C : MemberCache} (collate : String → String) (bcrypt : Bcrypt) (w : World C) where
  -- The name and the password are those of a user.
  abbrev pub LogsIn : LoginRequest → User → Type 0
  LogsIn req u =
      (find? (is_named collate req.username) w.session.tables.users ≡ some u)
      × (bcrypt.check u.password_hash req.password ≡ true)

  pub handle_login-token :
      (jwt : Jwt) (secret : String) (ttl : ℕ) (body : Option LoginRequest) (t : String)
      → (serve (handle_login collate bcrypt jwt secret ttl body) w).0.body ≡ login_token t
      → (req : LoginRequest) × ((u : User) × ((body ≡ some req)
            × (LogsIn req u × (generate_token jwt u.id secret ttl w.now ≡ some t))))
  unfolding handle_login Store.get_user_by_username
  handle_login-token jwt secret ttl none t e = absurd (ground (arith, e))
  handle_login-token jwt secret ttl (some req) t e =
      elim (Bool-cases (w.session.fails w.session.tick)) [
        | inl down ↦ absurd (ground (arith, e, down))
        | inr up ↦
            elim (Option-cases (find? (is_named collate req.username) w.session.tables.users)) [
              | inl unknown ↦ absurd (ground (arith, e, up, unknown))
              | inr (u, known) ↦ elim (Bool-cases (bcrypt.check u.password_hash req.password)) [
                | inr wrong ↦ absurd (ground (arith, e, up, known, wrong))
                | inl right ↦ elim (Option-cases (generate_token jwt u.id secret ttl w.now)) [
                  | inl unsigned ↦ absurd (ground (arith, e, up, known, right, unsigned))
                  | inr (t', signed) ↦ (
                    req,
                    (u, (refl, ((known, right), ground (arith, e, up, known, right, signed)))),
                  )
                ]
              ]
            ]
      ]
