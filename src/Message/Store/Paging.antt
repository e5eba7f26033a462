-- ===== src/Message/Store/Paging.antt =====
-- `ListByRoomCursor` of internal/message/store.go: the pages of a room, one after the other.
use chatroom_server.Base.{
  ℕ, ◌≤◌, ◌<◌, ◌≡◌, ◌≢◌, ◌∙◌, refl, Bool, false, List, [], ◌∷◌, ◌++◌, ltb, ◌==◌, if◌then◌else◌,
  filter, any, take, All, arith, Bool-cases, inl, inr,
}
use chatroom_server.Base.Rows.{IsUnique}
use chatroom_server.Base.Sort.{insert_by, sort_by, any-sort_by}
use chatroom_server.Action.{ok}
use chatroom_server.Db.{Session}
use chatroom_server.Message.Model.{Message}
use chatroom_server.Message.Store.{newer, in_page, list_by_room_cursor}

-- Each message is newer than all that follow.
abbrev pub IsDescending : List Message → Type 0
IsDescending [] = Unit
IsDescending (m ∷ ms) = All (λ n. n.id < m.id) ms × IsDescending ms

abbrev pub has_id_of : Message → Message → Bool
has_id_of m n = m.id == n.id

abbrev pub in_room : ℕ → Message → Bool
in_room room_id m = m.room_id == room_id

abbrev pub older_than : ℕ → Message → Bool
older_than id m = ltb m.id id

below-All : (a b : ℕ) (ms : List Message) → a ≤ b → All (λ n. n.id < a) ms → All (λ n. n.id < b) ms
below-All a b [] h al = tt
below-All a b (m ∷ ms) h al = (omega arith, below-All a b ms h al.1)

insert-All :
    (b : ℕ) (m : Message) (ms : List Message)
    → m.id < b
    → All (λ n. n.id < b) ms
    → All (λ n. n.id < b) (insert_by newer m ms)
unfolding insert_by
insert-All b m [] h al = (h, tt)
insert-All b m (n ∷ ms) h al = ground (arith, insert-All b m ms h al.1)

-- Sorting messages with distinct ids gives a descending list.
insert-IsDescending :
    (m : Message) (ms : List Message)
    → any (has_id_of m) ms ≡ false
    → IsDescending ms
    → IsDescending (insert_by newer m ms)
unfolding insert_by
insert-IsDescending m [] u d = (tt, tt)
insert-IsDescending m (n ∷ ms) u d = elim (Bool-cases (newer m n)) [
  | inl e ↦ rw e ((ground arith, below-All n.id m.id ms (ground arith) d.0), d)
  | inr e ↦
      rw e (insert-All n.id m ms (ground arith) d.0, insert-IsDescending m ms (ground arith) d.1)
]

sort-IsDescending : (ms : List Message) → IsUnique has_id_of ms → IsDescending (sort_by newer ms)
unfolding sort_by
sort-IsDescending [] u = tt
sort-IsDescending (m ∷ ms) u =
    insert-IsDescending m (sort_by newer ms) (any-sort_by newer (has_id_of m) ms ∙ u.0)
      (sort-IsDescending ms u.1)

filter-IsUnique :
    (p : Message → Bool) (ms : List Message)
    → IsUnique has_id_of ms
    → IsUnique has_id_of (filter p ms)
filter-IsUnique p [] u = tt
filter-IsUnique p (m ∷ ms) u = elim (Bool-cases (p m)) [
  | inl e ↦ rw e (any-filter_false p (has_id_of m) ms u.0, filter-IsUnique p ms u.1)
  | inr e ↦ rw e (filter-IsUnique p ms u.1)
]
  where
    any-filter_false :
        (p q : Message → Bool) (ms : List Message) → any q ms ≡ false → any q (filter p ms) ≡ false
    any-filter_false p q [] h = refl
    any-filter_false p q (m ∷ ms) h = ground (arith, any-filter_false p q ms)

-- Taking the older messages and sorting are done in either order.
filter-All_older :
    (b : ℕ) (ms : List Message) → All (λ n. n.id < b) ms → filter (older_than b) ms ≡ ms
filter-All_older b [] al = refl
filter-All_older b (m ∷ ms) al = ground (arith, filter-All_older b ms al.1)

filter-insert :
    (b : ℕ) (m : Message) (ms : List Message)
    → IsDescending ms
    → any (has_id_of m) ms ≡ false
    → filter (older_than b) (insert_by newer m ms) ≡ (
        if older_than b m
        then insert_by newer m (filter (older_than b) ms)
        else filter (older_than b) ms)
unfolding insert_by
filter-insert b m [] d u = ground arith
filter-insert b m (n ∷ ms) d u = ground (arith, filter-insert b m ms d.1, filter-All_older b ms)

sort-filter :
    (b : ℕ) (ms : List Message)
    → IsUnique has_id_of ms
    → sort_by newer (filter (older_than b) ms) ≡ filter (older_than b) (sort_by newer ms)
unfolding sort_by
sort-filter b [] u = refl
sort-filter b (m ∷ ms) u = ground (
  arith,
  sort-filter b ms u.1,
  filter-insert b m (sort_by newer ms) (sort-IsDescending ms u.1)
      (any-sort_by newer (has_id_of m) ms ∙ u.0),
)

descending-rest :
    (m : Message) (pre rest : List Message)
    → IsDescending (pre ++ m ∷ rest)
    → filter (older_than m.id) (pre ++ m ∷ rest) ≡ rest
descending-rest m [] rest d = ground (arith, filter-All_older m.id rest d.0)
descending-rest m (p ∷ pre) rest d =
    ground (arith, descending-rest m pre rest d.1, All-last p.id m pre rest d.0)
  where
    All-last :
        (b : ℕ) (m : Message) (pre rest : List Message)
        → All (λ n. n.id < b) (pre ++ m ∷ rest)
        → m.id < b
    All-last b m [] rest al = al.0
    All-last b m (p ∷ pre) rest al = All-last b m pre rest al.1

filter-in_page :
    (g b : ℕ) (ms : List Message)
    → b ≢ 0
    → filter (in_page g b) ms ≡ filter (older_than b) (filter (in_room g) ms)
filter-in_page g b [] h = refl
filter-in_page g b (m ∷ ms) h = ground (arith, filter-in_page g b ms h)

filter-first : (g : ℕ) (ms : List Message) → filter (in_page g 0) ms ≡ filter (in_room g) ms
filter-first g [] = refl
filter-first g (m ∷ ms) = ground (arith, filter-first g ms)

-- All messages of the room, the newest first.
abbrev pub history : List Message → ℕ → List Message
history ms g = sort_by newer (filter (in_room g) ms)

-- The history is in descending order of the ids, if no two messages of the table have one id.
pub history-IsDescending :
    (g : ℕ) (ms : List Message) → IsUnique has_id_of ms → IsDescending (history ms g)
history-IsDescending g ms u =
    sort-IsDescending (filter (in_room g) ms) (filter-IsUnique (in_room g) ms u)

module _ (g limit : ℕ) (s : Session) (u : IsUnique has_id_of s.tables.messages)
    (up : s.fails s.tick ≡ false) where
  -- With no cursor the page is the start of the history.
  pub list_by_room_cursor-first :
      (list_by_room_cursor g 0 limit s).0 ≡ ok (take limit (history s.tables.messages g))
  unfolding list_by_room_cursor
  list_by_room_cursor-first = rw (up, filter-first) refl

  -- Where no two messages of the table have one id and the query does not fail: with the id of a message
  -- of the history as the cursor, which is not 0, the page is what follows that message in the history,
  -- up to the limit; nothing is skipped, and nothing comes twice.
  pub list_by_room_cursor-next :
      (pre rest : List Message) (m : Message)
      → m.id ≢ 0
      → history s.tables.messages g ≡ pre ++ m ∷ rest
      → (list_by_room_cursor g m.id limit s).0 ≡ ok (take limit rest)
  unfolding list_by_room_cursor
  list_by_room_cursor-next pre rest m nz split =
      let ms = filter (in_room g) s.tables.messages in
      let desc : IsDescending (pre ++ m ∷ rest) =
        rw split at (history-IsDescending g s.tables.messages u) in
      rw
        (
          up,
          filter-in_page g m.id s.tables.messages nz,
          sort-filter m.id ms (filter-IsUnique (in_room g) s.tables.messages u),
          split,
          descending-rest m pre rest desc,
        )
        refl
