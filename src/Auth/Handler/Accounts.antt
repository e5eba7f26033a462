-- ===== src/Auth/Handler/Accounts.antt =====
-- Registration, login and the change of a profile: internal/auth/handler.go.
use chatroom_server.Base.{
  ℕ, ◌≡◌, refl, String, Bool, true, false, some, List, [], ◌∷◌, find?, any, filter, contains, map,
  arith, Bool-cases, Option-cases, inl, inr, ◌⊎◌,
}
use chatroom_server.Base.Rows.{update_where, IsUnique, update-IsUnique}
use chatroom_server.Action.{ok}
use chatroom_server.Db.{Session}
use chatroom_server.MemberCache.{MemberCache}
use chatroom_server.World.{World, serve}
use chatroom_server.Http.{Response, write_json, status_ok, new_uid, login_token}
use chatroom_server.Auth.Model.{User}
use chatroom_server.Auth.Store
use chatroom_server.Auth.Store.{has_user_id, is_named, display, with_profile}
use chatroom_server.Auth.Token.{Jwt, generate_token}
use chatroom_server.Auth.Handler.{
  RegisterRequest, UpdateProfileRequest, Bcrypt, IsBcrypt, or_current, handle_register,
  handle_login, handle_update_profile, first_row,
}
use mathlib.Core.Option
use text.Mathlib.TextEquality.{eq_iff}

module _ {C : MemberCache} (collate : String → String) (bcrypt : Bcrypt) (req : RegisterRequest)
    (w : World C) where
  abbrev pub registered : Response × World C
  registered = serve (handle_register collate bcrypt (some req)) w

  -- A registration that succeeds answers with the id of a new row, and logging in with the same name and
  -- password afterwards, where the query does not fail and the token can be signed, gives the token for
  -- that id.
  pub handle_login-handle_register :
      (jwt : Jwt) (secret t : String) (ttl later : ℕ)
      → IsBcrypt bcrypt
      → registered.0.status ≡ 200
      → registered.1.session.fails registered.1.session.tick ≡ false
      → generate_token jwt w.session.tables.next.user secret ttl later ≡ some t
      → (registered.0.body ≡ new_uid w.session.tables.next.user)
        × ((serve
              (handle_login collate bcrypt jwt secret ttl
                (some (record { username = req.username; password = req.password })))
              (record (registered.1) { now = later })).0
            ≡ write_json status_ok (login_token t))
  unfolding handle_register handle_login Store.create_user Store.get_user_by_username
  handle_login-handle_register jwt secret t ttl later lawful h up e =
      elim (Option-cases (bcrypt.hash req.password)) [
        | inl bad ↦ absurd (ground (arith, bad))
        | inr (hash, good) ↦ (
          ground (arith, good),
          ground (
            arith,
            good,
            (eq_iff (collate req.username) (collate req.username)).1 refl,
            lawful.check-hash req.password hash good,
            e,
          ),
        )
      ]

first_row-display :
    (uid : ℕ) (us : List User)
    → first_row (ok (map display (filter (λ u. contains (uid ∷ []) u.id) us)))
      ≡ Option.map display (find? (has_user_id uid) us)
first_row-display uid [] = refl
first_row-display uid (u ∷ us) = ground (arith, first_row-display uid us)

module _ {C : MemberCache} (uid : ℕ) (req : UpdateProfileRequest) (w : World C) where
  abbrev pub updated : Response × World C
  updated = serve (handle_update_profile uid (some req)) w

  -- A change of a profile that succeeds sets the nickname and the avatar of the caller's row to what the
  -- request has, or leaves them where it has none, and changes nothing else in the tables.
  pub handle_update_profile-with_profile :
      updated.0.status ≡ 200
      → (u : User) × (find? (has_user_id uid) w.session.tables.users ≡ some u)
        × (updated.1.session.tables ≡ record (w.session.tables) {
          users =
              update_where
                (has_user_id uid)
                (with_profile (or_current req.nickname u.nickname) (or_current req.avatar u.avatar))
                w.session.tables.users;
        })
  unfolding handle_update_profile Store.get_users_by_ids Store.update_profile
  handle_update_profile-with_profile h =
      elim (Option-cases (find? (has_user_id uid) w.session.tables.users)) [
        | inl e ↦ absurd (ground (arith, e, first_row-display uid w.session.tables.users))
        | inr (u, e) ↦ (u, e, ground (arith, e, first_row-display uid w.session.tables.users))
      ]

abbrev pub same_name : (String → String) → User → User → Bool
same_name collate a b = is_named collate a.username b

-- No two users get one name, whatever statements fail: `CreateUser` and `UpdateProfile` keep the names
-- of the table distinct.
pub create_user-IsUnique :
    (collate : String → String) (username hash nickname avatar : String) (uid : ℕ) (s : Session)
    → IsUnique (same_name collate) s.tables.users
    → IsUnique
        (same_name collate)
        (Store.create_user collate username hash nickname s).1.tables.users
      × IsUnique (same_name collate) (Store.update_profile uid nickname avatar s).1.tables.users
unfolding Store.create_user Store.update_profile
create_user-IsUnique collate username hash nickname avatar uid s u = (
  created (Bool-cases (s.fails s.tick))
      (Bool-cases (any (is_named collate username) s.tables.users)),
  updated_profile (Bool-cases (s.fails s.tick)),
)
  where
    created :
        ((s.fails s.tick ≡ true) ⊎ (s.fails s.tick ≡ false))
        → ((any (is_named collate username) s.tables.users ≡ true)
            ⊎ (any (is_named collate username) s.tables.users ≡ false))
        → IsUnique
            (same_name collate)
            (Store.create_user collate username hash nickname s).1.tables.users
    created (inl down) x = rw down u
    created (inr up) (inl taken) = rw (up, taken) u
    created (inr up) (inr free) = rw (up, free) (free, u)

    updated_profile :
        ((s.fails s.tick ≡ true) ⊎ (s.fails s.tick ≡ false))
        → IsUnique (same_name collate) (Store.update_profile uid nickname avatar s).1.tables.users
    updated_profile (inl down) = rw down u
    updated_profile (inr up) = rw up (
        update-IsUnique (same_name collate) (has_user_id uid) (with_profile nickname avatar)
          (λ x y. refl) (λ x y. refl) s.tables.users u)
