-- ===== src/Room/RoomList/Rooms.antt =====
-- Which rooms the list of a user has, and in which order: internal/room/store.go `ListRoomsForUser`.
use chatroom_server.Base.{
  ℕ, String, ◌≡◌, ◌∙◌, sym, refl, ap, Bool, true, ◌&&◌, ◌||◌, Option, some, List, [], ◌∷◌, map,
  ◌==◌, filter, any, arith,
}
use mathlib.Core.List.{flat_map}
use chatroom_server.Base.Joins.{any-append, any-flat_map, any-filter, any_ext}
use chatroom_server.Base.Sort.{sort_by, IsSorted, any-sort_by, sort_by-IsSorted}
use chatroom_server.Action.{ok}
use chatroom_server.Db.{Contact, Session, Tables}
use chatroom_server.Message.Model.{Message}
use chatroom_server.Room.Model.{Room, Group, Friend, Member, RoomSummary}
use chatroom_server.Room.Rows.{is_contact, is_member, has_id, is_group_of, is_friend_of}
use chatroom_server.Room.RoomList.{
  is_party, peer_of, more_recent, room_rows, member_rows, friend_rows, summaries,
  list_rooms_for_user, or_null, left_join, summary, is_last_of,
}

abbrev pub is_of_room : ℕ → RoomSummary → Bool
is_of_room k row = row.room_id == k

abbrev pub is_party_of : ℕ → ℕ → Friend → Bool
is_party_of k uid f = is_friend_of k f && is_party uid f

-- The room is in the table, and it is a group of the user's, with its row, or a conversation of the
-- user's.
abbrev pub is_shown : Tables → ℕ → ℕ → Bool
is_shown t uid k =
    any (has_id k) t.rooms
    && (any (is_member k uid) t.members && any (is_group_of k) t.groups
        || any (is_party_of k uid) t.friends)

any-map-summary :
    (r : Room) (name : String) (peer k : ℕ) (m : Option Message) (cs : List (Option Contact))
    → any (is_of_room k) (map (summary r name peer m) cs) ≡ any (λ c. r.id == k) cs
any-map-summary r name peer k m [] = refl
any-map-summary r name peer k m (c ∷ cs) = ground (arith, any-map-summary r name peer k m cs)

any-map-some {ℓ} :
    {A : Type ℓ} (b : Bool) (xs : List A)
    → any (λ (o : Option A). b) (map some xs) ≡ any (λ (x : A). b) xs
any-map-some b [] = refl
any-map-some b (x ∷ xs) = ground (arith, any-map-some b xs)

any_const {ℓ} : {A : Type ℓ} (b : Bool) (x : A) (xs : List A) → any (λ (y : A). b) (x ∷ xs) ≡ b
any_const b x [] = ground arith
any_const b x (y ∷ ys) = ground (arith, any_const b y ys)

any-or_null {ℓ} : {A : Type ℓ} (b : Bool) (xs : List A) → any (λ (o : Option A). b) (or_null xs) ≡ b
any-or_null b [] = ground arith
any-or_null b (x ∷ xs) = any-map-some b (x ∷ xs) ∙ any_const b x xs

-- The rows of a room are of that room, and there is one at least.
any-room_rows :
    (t : Tables) (uid k : ℕ) (name : String) (peer : ℕ) (r : Room)
    → any (is_of_room k) (room_rows t uid name peer r) ≡ (r.id == k)
unfolding room_rows
any-room_rows t uid k name peer r =
    any-flat_map (is_of_room k)
      (λ m. map (summary r name peer m) (left_join (is_contact uid r.id) t.contacts))
      (left_join (is_last_of r) t.messages)
    ∙ any_ext _ (λ m. r.id == k) (left_join (is_last_of r) t.messages)
        (λ m.
          any-map-summary r name peer k m (left_join (is_contact uid r.id) t.contacts)
          ∙ any-or_null (r.id == k) (filter (is_contact uid r.id) t.contacts))
    ∙ any-or_null (r.id == k) (filter (is_last_of r) t.messages)

any-groups :
    (k id : ℕ) (gs : List Group)
    → any (λ (g : Group). is_group_of id g && id == k) gs ≡ (id == k && any (is_group_of k) gs)
any-groups k id [] = ground arith
any-groups k id (g ∷ gs) = ground (arith, any-groups k id gs)

any-rooms :
    (k id : ℕ) (b : Bool) (rs : List Room)
    → any (λ (r : Room). has_id id r && (r.id == k && b)) rs ≡ (id == k && (any (has_id k) rs && b))
any-rooms k id b [] = ground arith
any-rooms k id b (r ∷ rs) = ground (arith, any-rooms k id b rs)

any-member_rows :
    (t : Tables) (uid k : ℕ) (gm : Member)
    → any (is_of_room k) (member_rows t uid gm)
      ≡ (gm.group_id == k && (any (has_id k) t.rooms && any (is_group_of k) t.groups))
unfolding member_rows
any-member_rows t uid k gm =
    any-flat_map (is_of_room k)
      (λ r. flat_map (λ g. room_rows t uid g.name 0 r) (filter (is_group_of r.id) t.groups))
      (filter (has_id gm.group_id) t.rooms)
    ∙ any-filter _ (has_id gm.group_id) t.rooms
    ∙ any_ext _ _ t.rooms (λ r. ap (λ b. has_id gm.group_id r && b) (of_room r))
    ∙ any-rooms k gm.group_id (any (is_group_of k) t.groups) t.rooms
  where
    of_room :
        (r : Room)
        → any
            (is_of_room k)
            (flat_map (λ g. room_rows t uid g.name 0 r) (filter (is_group_of r.id) t.groups))
          ≡ (r.id == k && any (is_group_of k) t.groups)
    of_room r =
        any-flat_map (is_of_room k) (λ g. room_rows t uid g.name 0 r)
          (filter (is_group_of r.id) t.groups)
        ∙ any-filter _ (is_group_of r.id) t.groups
        ∙ any_ext _ _ t.groups
            (λ g. ap (λ b. is_group_of r.id g && b) (any-room_rows t uid k g.name 0 r))
        ∙ any-groups k r.id t.groups

any-friend_rows :
    (t : Tables) (uid k : ℕ) (f : Friend)
    → any (is_of_room k) (friend_rows t uid f) ≡ (f.room_id == k && any (has_id k) t.rooms)
unfolding friend_rows
any-friend_rows t uid k f =
    any-flat_map (is_of_room k) (λ r. room_rows t uid "" (peer_of uid f) r)
      (filter (has_id f.room_id) t.rooms)
    ∙ any-filter _ (has_id f.room_id) t.rooms
    ∙ any_ext _ (λ r. has_id f.room_id r && (r.id == k && true)) t.rooms
        (λ r. ground (arith, any-room_rows t uid k "" (peer_of uid f) r))
    ∙ any-rooms k f.room_id true t.rooms
    ∙ ground arith

any-members :
    (uid k : ℕ) (b : Bool) (ms : List Member)
    → any (λ (m : Member). m.uid == uid && (m.group_id == k && b)) ms
      ≡ (any (is_member k uid) ms && b)
any-members uid k b [] = refl
any-members uid k b (m ∷ ms) = ground (arith, any-members uid k b ms)

any-friends :
    (uid k : ℕ) (b : Bool) (fs : List Friend)
    → any (λ (f : Friend). is_party uid f && (f.room_id == k && b)) fs
      ≡ (any (is_party_of k uid) fs && b)
any-friends uid k b [] = refl
any-friends uid k b (f ∷ fs) = ground (arith, any-friends uid k b fs)

pub any-summaries :
    (t : Tables) (uid k : ℕ) → any (is_of_room k) (summaries t uid) ≡ is_shown t uid k
unfolding summaries
any-summaries t uid k =
    let of_member = λ (m : Member). m.uid == uid in
    let groups = any (has_id k) t.rooms && any (is_group_of k) t.groups in
    let rooms = any (has_id k) t.rooms in
    ground (
      arith,
      any-append (is_of_room k) (flat_map (member_rows t uid) (filter of_member t.members))
          (flat_map (friend_rows t uid) (filter (is_party uid) t.friends)),
      any-flat_map (is_of_room k) (member_rows t uid) (filter of_member t.members)
          ∙ any-filter (λ m. any (is_of_room k) (member_rows t uid m)) of_member t.members
          ∙ any_ext (λ m. of_member m && any (is_of_room k) (member_rows t uid m))
              (λ m. of_member m && (m.group_id == k && groups)) t.members
              (λ m. ap (λ b. of_member m && b) (any-member_rows t uid k m))
          ∙ any-members uid k groups t.members,
      any-flat_map (is_of_room k) (friend_rows t uid) (filter (is_party uid) t.friends)
          ∙ any-filter (λ f. any (is_of_room k) (friend_rows t uid f)) (is_party uid) t.friends
          ∙ any_ext (λ f. is_party uid f && any (is_of_room k) (friend_rows t uid f))
              (λ f. is_party uid f && (f.room_id == k && rooms)) t.friends
              (λ f. ap (λ b. is_party uid f && b) (any-friend_rows t uid k f))
          ∙ any-friends uid k rooms t.friends,
    )

-- A list that `ListRoomsForUser` returns has a row for a room exactly if the room is in the table and is
-- a group that the user is a member of or a conversation of the user's, and it stands in descending
-- order of the rooms' last activity.
pub list_rooms_for_user-is_shown :
    (uid : ℕ) (s : Session) (rows : List RoomSummary)
    → (list_rooms_for_user uid s).0 ≡ ok rows
    → ((k : ℕ) → any (is_of_room k) rows ≡ is_shown s.tables uid k) × IsSorted more_recent rows
unfolding list_rooms_for_user
list_rooms_for_user-is_shown uid s rows h =
    let sorted = sort_by more_recent (summaries s.tables uid) in
    let e : sorted ≡ rows = ground arith in
    (
      λ k.
          ap (any (is_of_room k)) (sym e)
          ∙ any-sort_by more_recent (is_of_room k) (summaries s.tables uid)
          ∙ any-summaries s.tables uid k,
      rw e at (
          sort_by-IsSorted more_recent (λ x y h. ground arith) (λ x y z h k. ground arith)
            (summaries s.tables uid)),
    )
