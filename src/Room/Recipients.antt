-- ===== src/Room/Recipients.antt =====
-- internal/room/recipients.go
use chatroom_server.Base.{ℕ, Option, none, some, List, [], ◌∷◌, ◌==◌, if◌then◌else◌}
use chatroom_server.Room.Model.{Room, Friend, type_group, type_friend}

abbrev pair_of : Option Friend → List ℕ
pair_of none = []
pair_of (some f) = f.uid1 ∷ f.uid2 ∷ []

-- `Recipients`; the nil slice is the empty list.
unfoldable pub recipients : Room → List ℕ → Option Friend → List ℕ
recipients r group_member_uids friend =
    if r.type == type_group
    then group_member_uids
    else if r.type == type_friend
    then pair_of friend
    else []
