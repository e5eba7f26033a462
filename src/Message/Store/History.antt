-- ===== src/Message/Store/History.antt =====
-- A client that reads a room page by page, each time with the id of the last message as the cursor, gets
-- the whole history: `ListByRoomCursor` of internal/message/store.go.
use chatroom_server.Base.{
  ℕ, zero, suc, ◌+◌, ◌≤◌, ◌<◌, ◌≡◌, ◌≢◌, ◌⊎◌, refl, sym, ap, ◌∙◌, false, List, [], ◌∷◌, ◌++◌,
  filter, length, take, All, arith, inl, inr,
}
use mathlib.Core.List.{append_assoc}
use mathlib.Core.Path.{subst}
use chatroom_server.Base.Rows.{IsUnique}
use chatroom_server.Base.Sort.{All-sort_by}
use chatroom_server.Base.Joins.{All-filter}
use chatroom_server.Action.{ok, err}
use chatroom_server.Db.{Session}
use chatroom_server.Message.Model.{Message}
use chatroom_server.Message.Store.{newer, list_by_room_cursor}
use chatroom_server.Message.Store.Paging.{
  has_id_of, in_room, history, list_by_room_cursor-first, list_by_room_cursor-next,
}

abbrev pub last_id : Message → List Message → ℕ
last_id m [] = m.id
last_id m (n ∷ ms) = last_id n ms

-- The client: it stops at an empty page or at an error.
module _ (g limit : ℕ) where
  abbrev pub read_pages : ℕ → ℕ → Session → List Message
  read_pages zero cursor s = []
  read_pages (suc fuel) cursor s =
      let (r, s') = list_by_room_cursor g cursor limit s in
      elim r [
        | err e ↦ []
        | ok [] ↦ []
        | ok (m ∷ ms) ↦ (m ∷ ms) ++ read_pages fuel (last_id m ms) s'
      ]

-- A page, the message at its end, and what follows it.
record Page (k : ℕ) (m : Message) (more : List Message) : Type 0 where
  before : List Message
  last : Message
  after : List Message
  ends : m ∷ more ≡ before ++ last ∷ after
  cursor : last.id ≡ last_id m (take k more)
  whole : (m ∷ take k more) ++ after ≡ m ∷ more
  shorter : length after ≤ length more

page_of : (k : ℕ) (m : Message) (more : List Message) → Page k m more
page_of zero m more = record {
  before = [];
  last = m;
  after = more;
  ends = refl;
  cursor = refl;
  whole = refl;
  shorter = omega arith;
}
page_of (suc k) m [] = record {
  before = [];
  last = m;
  after = [];
  ends = refl;
  cursor = refl;
  whole = refl;
  shorter = omega arith;
}
page_of (suc k) m (n ∷ more) =
    let p = page_of k n more in
    record {
      before = m ∷ p.before;
      last = p.last;
      after = p.after;
      ends = ap (λ xs. m ∷ xs) p.ends;
      cursor = p.cursor;
      whole = ap (λ xs. m ∷ xs) p.whole;
      shorter = ground (arith, p.shorter);
    }

All-at :
    (P : Message → Type 0) (pre : List Message) (m : Message) (rest : List Message)
    → All P (pre ++ m ∷ rest)
    → P m
All-at P [] m rest al = al.0
All-at P (x ∷ pre) m rest al = All-at P pre m rest al.1

module _ (g k : ℕ) (ms : List Message) (distinct : IsUnique has_id_of ms)
    (positive : All (λ m. 0 < m.id) ms) where
  -- The cursor stands before the rest of the history.
  abbrev IsAt : ℕ → List Message → Type 0
  IsAt cursor rest =
      ((cursor ≡ 0) × (history ms g ≡ rest))
      ⊎ ((pre : List Message) × ((m : Message) × ((cursor ≡ m.id)
              × ((m.id ≢ 0) × (history ms g ≡ pre ++ m ∷ rest)))))

  page-IsAt :
      (cursor : ℕ) (rest : List Message) (s : Session)
      → IsAt cursor rest
      → s.tables.messages ≡ ms
      → s.fails s.tick ≡ false
      → (list_by_room_cursor g cursor (suc k) s).0 ≡ ok (take (suc k) rest)
  page-IsAt cursor rest s (inl (start, all)) same up =
      ap (λ c. (list_by_room_cursor g c (suc k) s).0) start
      ∙ list_by_room_cursor-first g (suc k) s (subst (IsUnique has_id_of) (sym same) distinct) up
      ∙ ap (λ x. ok (take (suc k) x)) (ap (λ y. history y g) same ∙ all)
  page-IsAt cursor rest s (inr (pre, (m, (at_m, (nz, split))))) same up =
      ap (λ c. (list_by_room_cursor g c (suc k) s).0) at_m
      ∙ list_by_room_cursor-next g (suc k) s (subst (IsUnique has_id_of) (sym same) distinct) up pre
          rest m nz (ap (λ y. history y g) same ∙ split)

  history-positive : All (λ m. 0 < m.id) (history ms g)
  history-positive =
      All-sort_by newer (λ m. 0 < m.id) (filter (in_room g) ms)
        (All-filter (λ m. 0 < m.id) (in_room g) ms positive)

  -- What stands before the cursor.
  IsAt-split :
      (cursor : ℕ) (rest : List Message)
      → IsAt cursor rest
      → (pre : List Message) × (history ms g ≡ pre ++ rest)
  IsAt-split cursor rest (inl (start, all)) = ([], all)
  IsAt-split cursor rest (inr (pre, (m, (at_m, (nz, split))))) =
      (pre ++ (m ∷ []), split ∙ sym (append_assoc pre (m ∷ []) rest))

  IsAt-after :
      (cursor : ℕ) (m : Message) (more : List Message)
      → IsAt cursor (m ∷ more)
      → IsAt (last_id m (take k more)) (page_of k m more).after
  IsAt-after cursor m more here =
      let p = page_of k m more in
      let (pre, split) = IsAt-split cursor (m ∷ more) here in
      let ends : history ms g ≡ (pre ++ p.before) ++ p.last ∷ p.after =
        split ∙ ap (λ x. pre ++ x) p.ends ∙ sym (append_assoc pre p.before (p.last ∷ p.after)) in
      let old =
        All-at (λ x. 0 < x.id) (pre ++ p.before) p.last p.after
          (subst (All (λ x. 0 < x.id)) ends history-positive) in
      inr (pre ++ p.before, (p.last, (sym p.cursor, ((λ e. ground (arith, old, e)), ends))))

  reading-frame :
      (cursor : ℕ) (s : Session)
      → let s' = (list_by_room_cursor g cursor (suc k) s).1 in
        (s'.tables ≡ s.tables) × (s'.fails ≡ s.fails)
  unfolding list_by_room_cursor
  reading-frame cursor s = (refl, refl)

  read_rest :
      (fuel cursor : ℕ) (rest : List Message) (s : Session)
      → IsAt cursor rest
      → s.tables.messages ≡ ms
      → ((n : ℕ) → s.fails n ≡ false)
      → length rest < fuel
      → read_pages g (suc k) fuel cursor s ≡ rest
  read_rest zero cursor rest s here same up h = absurd (omega arith)
  read_rest (suc fuel) cursor [] s here same up h =
      ground (arith, page-IsAt cursor [] s here same (up s.tick))
  read_rest (suc fuel) cursor (m ∷ more) s here same up h =
      let p = page_of k m more in
      let s' = (list_by_room_cursor g cursor (suc k) s).1 in
      let (tables, fails) = reading-frame cursor s in
      let others =
        read_rest fuel (last_id m (take k more)) p.after s' (IsAt-after cursor m more here)
          (ap (λ t. t.messages) tables ∙ same) (λ n. ap (λ f. f n) fails ∙ up n)
          (ground (arith, h, p.shorter)) in
      ground (arith, page-IsAt cursor (m ∷ more) s here same (up s.tick), others, p.whole)

-- Where the messages have distinct positive ids and no query fails: a client that asks for pages of at least
-- one message, the first without a cursor and each other with the id of the last message before it, comes
-- to an empty page after no more calls than the history has messages, and one, and then has the whole
-- history of the room, the newest message first, each message once.
pub read_pages-history :
    (g limit : ℕ) (s : Session)
    → 0 < limit
    → IsUnique has_id_of s.tables.messages
    → All (λ m. 0 < m.id) s.tables.messages
    → ((n : ℕ) → s.fails n ≡ false)
    → read_pages g limit (length (history s.tables.messages g) + 1) 0 s
      ≡ history s.tables.messages g
read_pages-history g zero s h distinct positive up = absurd (omega arith)
read_pages-history g (suc k) s h distinct positive up =
    read_rest g k s.tables.messages distinct positive (length (history s.tables.messages g) + 1) 0
      (history s.tables.messages g) s (inl (refl, refl)) refl up (omega arith)
