-- ===== src/Auth/Store.antt =====
-- internal/auth/store.go: `SQLStore`. The database compares names by a collation: `collate` gives the
-- sort key of a name, and two names are the same if their keys are.
use chatroom_server.Base.{
  ℕ, ◌+◌, String, Bool, none, some, List, [], ◌∷◌, ◌==◌, if◌then◌else◌, map, find?, any, filter,
  contains,
}
use chatroom_server.Base.Rows.{update_where}
use chatroom_server.Action.{ok, err}
use chatroom_server.Db.{no_rows, duplicate, Sql, statement, query}
use chatroom_server.Auth.Model.{User}
use text.Mathlib.Text.{◌==◌ as str_eq}

abbrev pub has_user_id : ℕ → User → Bool
has_user_id uid u = u.id == uid

-- What `SELECT id, nickname, avatar` reads of a row; the other fields are zero.
abbrev pub display : User → User
display u = record {
  id = u.id;
  username = "";
  password_hash = "";
  nickname = u.nickname;
  avatar = u.avatar;
  create_time = 0;
}

abbrev pub with_profile : String → String → User → User
with_profile nickname avatar u = record u { nickname = nickname; avatar = avatar }

module _ (collate : String → String) where
  abbrev pub is_named : String → User → Bool
  is_named username u = str_eq (collate u.username) (collate username)

  -- `CreateUser`, with the unique key on the name
  unfoldable pub create_user : String → String → String → Sql ℕ
  create_user username password_hash nickname s = statement s λ now t.
      let next = record (t.next) { user = t.next.user + 1 } in
      if any (is_named username) t.users then (err duplicate, record t { next = next }) else (
        ok t.next.user,
        record t {
          users =
              (record {
                id = t.next.user;
                username = username;
                password_hash = password_hash;
                nickname = nickname;
                avatar = "";
                create_time = now;
              })
              ∷ t.users;
          next = next;
        },
      )

  -- `GetUserByUsername`
  unfoldable pub get_user_by_username : String → Sql User
  get_user_by_username username s =
      query s λ t. elim (find? (is_named username) t.users) [ none ↦ err no_rows | some u ↦ ok u ]

-- `GetUsersByIDs`; with no id no statement is sent.
unfoldable pub get_users_by_ids : List ℕ → Sql (List User)
get_users_by_ids [] s = (ok [], s)
get_users_by_ids (id ∷ ids) s =
    query s λ t. ok (map display (filter (λ u. contains (id ∷ ids) u.id) t.users))

-- `UpdateProfile`
unfoldable pub update_profile : ℕ → String → String → Sql (Unit {0})
update_profile uid nickname avatar s = statement s λ now t. (
  ok tt,
  record t { users = update_where (has_user_id uid) (with_profile nickname avatar) t.users },
)
