-- ===== src/Auth/Handler.antt =====
-- internal/auth/handler.go. Hashing and checking of passwords are bcrypt's. A request is given by the
-- decoded body, with `none` for a decoding error, and by the caller's uid behind the middleware.
pub mod Accounts
pub mod Login
use chatroom_server.Base.{
  ℕ, ◌≡◌, String, Bool, true, false, not, ◌&&◌, ◌||◌, Option, none, some, List, [], ◌∷◌, ◌==◌,
  if◌then◌else◌, ltb, map, length,
}
use chatroom_server.Action.{
  Result, ok, err, ◌>>=◌, ◌>>◌, pure, raise_if, or_raise, or_else_raise, attempt,
}
use chatroom_server.MemberCache.{MemberCache}
use chatroom_server.Db.{DbError}
use chatroom_server.World.{World, Handler, sql}
use chatroom_server.Http.{
  Response, UserInfo, write_json, write_error, status_ok, bad_request, unauthorized, conflict,
  internal_error, new_uid, login_token, user_infos, profile,
}
use chatroom_server.Message.Handler.{reading}
use chatroom_server.Auth.Model.{User}
use chatroom_server.Auth.Store
use chatroom_server.Auth.Token.{Jwt, generate_token}
use Prim.Native.String.{len}
use text.Mathlib.Text.{◌==◌ as str_eq}

pub record RegisterRequest : Type 0 where
  pub username : String
  pub password : String
  pub nickname : String

pub record LoginRequest : Type 0 where
  pub username : String
  pub password : String

pub record UpdateProfileRequest : Type 0 where
  pub nickname : Option String
  pub avatar : Option String

-- `HashPassword`, for the salt that the request draws, and `CheckPassword`.
pub record Bcrypt : Type 0 where
  pub hash : String → Option String
  pub check : String → String → Bool

-- A password passes against its own hash.
pub record IsBcrypt (bcrypt : Bcrypt) : Type 0 where
  pub check-hash :
      (password hash : String)
      → bcrypt.hash password ≡ some hash
      → bcrypt.check hash password ≡ true

abbrev pub nickname_or_name : RegisterRequest → String
nickname_or_name req = if str_eq req.nickname "" then req.username else req.nickname

abbrev pub user_info : User → UserInfo
user_info u = record { uid = u.id; nickname = u.nickname; avatar = u.avatar }

-- `err == nil && CheckPassword(…)`: the user that may log in.
abbrev pub checked : Bcrypt → String → Result DbError User → Option User
checked bcrypt password (err e) = none
checked bcrypt password (ok u) = if bcrypt.check u.password_hash password then some u else none

-- The nickname is present and of no allowed length.
abbrev pub is_bad_nickname : Option String → Bool
is_bad_nickname none = false
is_bad_nickname (some n) = (len n == 0) || ltb 32 (len n)

abbrev pub or_current : Option String → String → String
or_current none current = current
or_current (some new) current = new

-- The first row, if the query found one.
abbrev pub first_row : Result DbError (List User) → Option User
first_row (err e) = none
first_row (ok []) = none
first_row (ok (u ∷ us)) = some u

module _ {C : MemberCache} where
  module _ (collate : String → String) (bcrypt : Bcrypt) where
    -- `handleRegister`
    unfoldable pub handle_register : Option RegisterRequest → Handler C Response
    handle_register body = do
      req ← or_raise body (write_error bad_request "invalid request body")
      raise_if (ltb (len req.username) 3 || ltb (len req.password) 6)
          (write_error bad_request "username must be >=3 chars and password >=6 chars")
      hash ←
          or_raise (bcrypt.hash req.password) (write_error internal_error "failed to hash password")
      uid ←
          or_else_raise (sql (Store.create_user collate req.username hash (nickname_or_name req)))
            (write_error conflict "username already taken")
      pure (write_json status_ok (new_uid uid))

    -- `handleLogin`
    unfoldable pub handle_login : Jwt → String → ℕ → Option LoginRequest → Handler C Response
    handle_login jwt secret ttl body = do
      req ← or_raise body (write_error bad_request "invalid request body")
      found ← attempt (sql (Store.get_user_by_username collate req.username))
      user ←
          or_raise (checked bcrypt req.password found)
            (write_error unauthorized "invalid username or password")
      now ← reading (λ w. (w.now, w))
      token ←
          or_raise (generate_token jwt user.id secret ttl now)
            (write_error internal_error "failed to issue token")
      pure (write_json status_ok (login_token token))

  -- `handleLookup`
  unfoldable pub handle_lookup : Option (List ℕ) → Handler C Response
  handle_lookup body = do
    uids ← or_raise body (write_error bad_request "invalid request body")
    raise_if ((length uids == 0) || ltb 200 (length uids))
        (write_error bad_request "uids must contain 1-200 entries")
    users ←
        or_else_raise (sql (Store.get_users_by_ids uids))
          (write_error internal_error "failed to look up users")
    pure (write_json status_ok (user_infos (map user_info users)))

  -- `handleUpdateProfile`
  unfoldable pub handle_update_profile : ℕ → Option UpdateProfileRequest → Handler C Response
  handle_update_profile uid body = do
    req ← or_raise body (write_error bad_request "invalid request body")
    raise_if (is_bad_nickname req.nickname)
        (write_error bad_request "nickname must be 1-32 characters")
    rows ← attempt (sql (Store.get_users_by_ids (uid ∷ [])))
    current ←
        or_raise (first_row rows) (write_error internal_error "failed to load current profile")
    let nickname = or_current req.nickname current.nickname
    let avatar = or_current req.avatar current.avatar
    or_else_raise (sql (Store.update_profile uid nickname avatar))
        (write_error internal_error "failed to update profile")
    pure (
        write_json status_ok (profile (record { uid = uid; nickname = nickname; avatar = avatar })))
