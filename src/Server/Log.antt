-- ===== src/Server/Log.antt =====
-- What the requests do to the stored messages.
pub mod Rooms
pub mod Messages
pub mod Run
pub mod Site
use chatroom_server.Base.{
  ℕ, suc, ◌+◌, ◌<◌, ◌≡◌, ◌⊎◌, refl, sym, ◌∙◌, Bool, true, false, Option, none, some, List, [], ◌∷◌,
  ◌==◌, find?, any, All, arith, Bool-cases, inl, inr,
}
use chatroom_server.Base.Rows.{IsUnique, update_where, All-update, update-IsUnique, find?-update}
use mathlib.Core.Path.{subst}
use chatroom_server.Db.{Tables}
use chatroom_server.Message.Model.{Message, Status, status_deleted}
use chatroom_server.Message.Store.{has_msg_id, with_status}
use chatroom_server.Message.Store.Paging.{has_id_of}

-- The messages, and the next id.
abbrev pub Log : Type 0
Log = List Message × ℕ

abbrev pub log_of : Tables → Log
log_of t = (t.messages, t.next.message)

abbrev pub added : Message → Log → Log
added m (ms, next) = ((record m { id = next }) ∷ ms, next + 1)

abbrev pub withdrawn : ℕ → Log → Log
withdrawn id (ms, next) = (update_where (has_msg_id id) (with_status status_deleted) ms, next)

-- Nothing, one more message, or a message marked as deleted.
abbrev pub Changes : Log → Log → Type 0
Changes l l' = (l' ≡ l) ⊎ (((m : Message) × (l' ≡ added m l)) ⊎ ((id : ℕ) × (l' ≡ withdrawn id l)))

-- No two messages have one id, and ids are positive and below the next one.
pub record IsNumbered (l : Log) : Type 0 where
  pub distinct : IsUnique has_id_of l.0
  pub positive : All (λ m. 0 < m.id) l.0
  pub old : All (λ m. m.id < l.1) l.0
  pub started : 0 < l.1

any-old : (n : ℕ) (ms : List Message) → All (λ m. m.id < n) ms → any (λ m. n == m.id) ms ≡ false
any-old n [] al = refl
any-old n (m ∷ ms) al = ground (arith, any-old n ms al.1)

old-next : (n : ℕ) (ms : List Message) → All (λ m. m.id < n) ms → All (λ m. m.id < n + 1) ms
old-next n [] al = tt
old-next n (m ∷ ms) al = (omega arith, old-next n ms al.1)

added-IsNumbered : (m : Message) (l : Log) → IsNumbered l → IsNumbered (added m l)
added-IsNumbered m (ms, next) p = record {
  distinct = (any-old next ms p.old, p.distinct);
  positive = (p.started, p.positive);
  old = (omega arith, old-next next ms p.old);
  started = omega arith;
}

withdrawn-IsNumbered : (id : ℕ) (l : Log) → IsNumbered l → IsNumbered (withdrawn id l)
withdrawn-IsNumbered id (ms, next) p = record {
  distinct =
      update-IsUnique has_id_of (has_msg_id id) (with_status status_deleted) (λ x y. refl)
        (λ x y. refl) ms p.distinct;
  positive =
      All-update (λ m. 0 < m.id) (has_msg_id id) (with_status status_deleted) (λ m h. h) ms
        p.positive;
  old =
      All-update (λ m. m.id < next) (has_msg_id id) (with_status status_deleted) (λ m h. h) ms
        p.old;
  started = p.started;
}

pub Changes-IsNumbered : (l l' : Log) → Changes l l' → IsNumbered l → IsNumbered l'
Changes-IsNumbered l l' (inl e) p = subst IsNumbered (sym e) p
Changes-IsNumbered l l' (inr (inl (m, e))) p = subst IsNumbered (sym e) (added-IsNumbered m l p)
Changes-IsNumbered l l' (inr (inr (id, e))) p =
    subst IsNumbered (sym e) (withdrawn-IsNumbered id l p)

-- A status that may come after another.
abbrev pub Follows : Status → Status → Type 0
Follows st old = (st ≡ old) ⊎ (st ≡ status_deleted)

-- The message is in the list, as it is or marked as deleted.
abbrev pub Holds : Message → Log → Type 0
Holds m l =
    (st : Status) × (Follows st m.status × (find? (has_msg_id m.id) l.0 ≡ some (with_status st m)))

find?-old :
    (k : ℕ) (m : Message) (ms : List Message) (n : ℕ)
    → All (λ x. x.id < n) ms
    → find? (has_msg_id k) ms ≡ some m
    → k < n
find?-old k m [] n al e = absurd (ground (arith, e))
find?-old k m (x ∷ ms) n al e = ground (arith, e, al.0, find?-old k m ms n al.1)

find?-withdrawn :
    (k id : ℕ) (m : Message) (ms : List Message)
    → find? (has_msg_id k) ms ≡ some m
    → (st : Status) × (Follows st m.status
        × (find? (has_msg_id k) (update_where (has_msg_id id) (with_status status_deleted) ms)
            ≡ some (with_status st m)))
find?-withdrawn k id m ms e =
    let updated =
      find?-update (has_msg_id id) (has_msg_id k) (with_status status_deleted) ms (λ x. refl) in
    elim (Bool-cases (has_msg_id id m)) [
      | inl b ↦ (status_deleted, (inr refl, ground (arith, updated, e, b)))
      | inr b ↦ (m.status, (inl refl, ground (arith, updated, e, b)))
    ]

follow : {a b c : Status} → Follows b a → Follows c b → Follows c a
follow (inl e) (inl f) = inl (f ∙ e)
follow (inr e) (inl f) = inr (f ∙ e)
follow x (inr f) = inr f

pub Changes-Holds :
    (m : Message) (l l' : Log) → Changes l l' → IsNumbered l → Holds m l → Holds m l'
Changes-Holds m l l' (inl e) p h = subst (Holds m) (sym e) h
Changes-Holds m l l' (inr (inl (new, e))) p (st, (f, h)) =
    (st, (f, ground (arith, e, h, find?-old m.id (with_status st m) l.0 l.1 p.old h)))
Changes-Holds m l l' (inr (inr (id, e))) p (st, (f, h)) =
    let (st', (f', h')) = find?-withdrawn m.id id (with_status st m) l.0 h in
    subst (Holds m) (sym e) (st', (follow f f', h'))
