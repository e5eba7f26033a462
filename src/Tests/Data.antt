-- ===== src/Tests/Data.antt =====
-- A cache that keeps everything, and a small database: user 1 owns the group of room 1, user 2 is an
-- admin of it and user 3 a member; users 1 and 4 talk in room 2; room 3 is hot.
use chatroom_server.Base.{
  ℕ, String, true, false, Option, none, some, List, [], ◌∷◌, ◌==◌, if◌then◌else◌, arith,
}
use chatroom_server.MemberCache.{MemberCache, IsCache, Cached, hit, miss}
use chatroom_server.Db.{Tables, Session}
use chatroom_server.Room.Model.{Room, Member}
use chatroom_server.Message.Model.{Message}
use chatroom_server.Ws.Envelope.{Envelope}
use chatroom_server.World.{World}

abbrev pub answer : Option (List ℕ) → Cached
answer none = miss
answer (some us) = hit us

abbrev pub memory_cache : MemberCache
memory_cache = record {
  State = ℕ → Option (List ℕ);
  enabled = true;
  get = λ s g. (answer (s g), s);
  set = λ s g us ttl. (true, λ k. if k == g then some us else s k);
  invalidate = λ s g. (true, λ k. if k == g then none else s k);
  holds = λ s g. s g;
}

pub memory_cache-IsCache : IsCache memory_cache
memory_cache-IsCache = record {
  get-hit = λ s g us h. ground arith;
  holds-get = λ s g k us h. h;
  holds-set = λ s g ttl k vs us h. ground arith;
  holds-invalidate_self = λ s g h. ground arith;
  holds-invalidate = λ s g k us h. ground arith;
}

abbrev pub room_row : ℕ → ℕ → ℕ → Room
room_row id type hot = record {
  id = id;
  type = type;
  hot_flag = hot;
  active_time = 0;
  last_msg_id = 0;
  create_time = 0;
}

abbrev pub member_row : ℕ → ℕ → ℕ → Member
member_row id uid role = record { id = id; group_id = 1; uid = uid; role = role; create_time = 0 }

abbrev pub message_row : ℕ → Message
message_row id = record {
  id = id;
  room_id = 1;
  from_uid = 3;
  content = "hi";
  type = 1;
  reply_msg_id = 0;
  status = 0;
  extra = none;
  create_time = 5;
}

abbrev pub tables : Tables
tables = record {
  rooms = room_row 1 2 0 ∷ room_row 2 1 0 ∷ room_row 3 2 1 ∷ [];
  groups = (record { id = 1; room_id = 1; name = "team"; avatar = "" }) ∷ [];
  friends = (record { id = 1; room_id = 2; uid1 = 1; uid2 = 4 }) ∷ [];
  members = member_row 1 1 1 ∷ member_row 2 2 2 ∷ member_row 3 3 3 ∷ [];
  contacts = [];
  messages = message_row 1 ∷ message_row 2 ∷ message_row 3 ∷ [];
  marks = [];
  users = [];
  next = record {
    room = 4;
    room_group = 2;
    room_friend = 2;
    group_member = 4;
    message = 4;
    message_mark = 1;
    user = 6;
  };
}

abbrev pub session : Session
session = record { tables = tables; tick = 0; fails = λ n. false; clock = λ n. 100 }

-- Users 1 and 3 are connected, and the cache is empty.
abbrev pub world : World memory_cache
world = record {
  session = session;
  cache = λ g. none;
  hub = record { conns = (1, 10 ∷ 11 ∷ []) ∷ (3, 30 ∷ []) ∷ (4, 40 ∷ []) ∷ []; sent = [] };
  now = 50;
}

abbrev pub encode : Envelope → Option String
encode e = some e.kind
