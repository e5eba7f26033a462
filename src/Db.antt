-- ===== src/Db.antt =====
-- The database as the stores see it: the tables that internal/db/migrations creates, and a session
-- in which any statement may be refused. `fails n` says that the server or the driver refuses the
-- n-th statement, which then has no effect; `clock n` is the value of NOW() in it.
pub mod Connection
use chatroom_server.Base.{ℕ, suc, Bool, List, if◌then◌else◌}
use chatroom_server.Action.{Result, ok, err, Action}
use chatroom_server.Room.Model.{Room, Group, Friend, Member}
use chatroom_server.Message.Model.{Message, Mark}
use chatroom_server.Auth.Model.{User}

-- A row of `contact`. Its primary key is read by no statement and is left out.
pub record Contact : Type 0 where
  pub uid : ℕ
  pub room_id : ℕ
  pub active_time : ℕ
  pub unread_count : ℕ

-- The next AUTO_INCREMENT value of each table.
pub record Counters : Type 0 where
  pub room : ℕ
  pub room_group : ℕ
  pub room_friend : ℕ
  pub group_member : ℕ
  pub message : ℕ
  pub message_mark : ℕ
  pub user : ℕ

pub record Tables : Type 0 where
  pub rooms : List Room
  pub groups : List Group
  pub friends : List Friend
  pub members : List Member
  pub contacts : List Contact
  pub messages : List Message
  pub marks : List Mark
  pub users : List User
  pub next : Counters

pub record Session : Type 0 where
  pub tables : Tables
  pub tick : ℕ
  pub fails : ℕ → Bool
  pub clock : ℕ → ℕ

-- The errors that a caller can tell apart, and those that only tests would.
pub data DbError : Type 0 where
  no_rows not_found driver duplicate self_dm : DbError

abbrev pub Sql : Type 0 → Type 0
Sql A = Action Session DbError A

-- The session after one more statement.
abbrev pub next_statement : Session → Session
next_statement s = record s { tick = suc s.tick }

-- One statement that reads or writes the tables at a time.
abbrev pub statement :
    {A : Type 0} → Session → (ℕ → Tables → Result DbError A × Tables) → Result DbError A × Session
statement s f =
    let (r, t) = f (s.clock s.tick) s.tables in
    let refused = s.fails s.tick in
    (
      if refused then err driver else r,
      record (next_statement s) { tables = if refused then s.tables else t },
    )

abbrev pub query : {A : Type 0} → Session → (Tables → Result DbError A) → Result DbError A × Session
query s f = (if s.fails s.tick then err driver else f s.tables, next_statement s)

-- The tables are what they were, but for the AUTO_INCREMENT values, which a rollback keeps.
abbrev pub rollback : Session → Session → Session
rollback before after = record after { tables = record before.tables { next = after.tables.next } }

-- `BeginTxx`, the body, `Commit`, with a deferred `Rollback`.
abbrev pub commit : {A : Type 0} → Session → Result DbError A × Session → Result DbError A × Session
commit before (err e, after) = (err e, rollback before after)
commit before (ok a, after) =
    if after.fails after.tick
    then (err driver, next_statement (rollback before after))
    else (ok a, next_statement after)

abbrev pub transaction : {A : Type 0} → Sql A → Sql A
transaction body s =
    if s.fails s.tick
    then (err driver, next_statement s)
    else commit (next_statement s) (body (next_statement s))
