-- ===== src/Room/Store/Members.antt =====
-- The row of one member under the writes of internal/room/store.go.
use chatroom_server.Base.{
  ℕ, ◌≡◌, true, false, ◌&&◌, none, some, List, [], ◌∷◌, ◌==◌, if◌then◌else◌, find?, any, refl,
  arith, Bool-cases, inl, inr, ==_iff,
}
use chatroom_server.Base.Rows.{delete_where, update_where, find?-delete_self, find?-delete_ne}
use mathlib.Core.Option
use chatroom_server.Room.Model.{Member}
use chatroom_server.Room.Rows.{is_member, with_role}

-- A search for one key does not see a change of another.
other_key :
    (h v g x : ℕ)
    → (g == h && x == v) ≡ false
    → (m : Member) → is_member g x m ≡ true
    → is_member h v m ≡ false
other_key h v g x ne m e = ground arith

same_key :
    (h v g x : ℕ)
    → (g == h && x == v) ≡ true
    → (m : Member) → is_member g x m ≡ true
    → is_member h v m ≡ true
same_key h v g x eq m e = ground arith

pub find-same :
    (h v g x : ℕ) (ms : List Member)
    → (g == h && x == v) ≡ true
    → find? (is_member g x) ms ≡ find? (is_member h v) ms
find-same h v g x ms e = rw ((==_iff g h).0 (ground arith), (==_iff x v).0 (ground arith))

pub find-delete :
    (h v g x : ℕ) (ms : List Member)
    → find? (is_member g x) (delete_where (is_member h v) ms)
      ≡ (if g == h && x == v then none else find? (is_member g x) ms)
find-delete h v g x ms = elim (Bool-cases (g == h && x == v)) [
  | inl e ↦ rw e (find?-delete_self (is_member h v) (is_member g x) ms (same_key h v g x e))
  | inr e ↦ rw e (find?-delete_ne (is_member h v) (is_member g x) ms (other_key h v g x e))
]

pub find-set_role :
    (h v g x role : ℕ) (ms : List Member)
    → find? (is_member g x) (update_where (is_member h v) (with_role role) ms) ≡ (
        if g == h && x == v
        then Option.map (with_role role) (find? (is_member h v) ms)
        else find? (is_member g x) ms)
find-set_role h v g x role [] = ground arith
find-set_role h v g x role (m ∷ ms) = ground (arith, find-set_role h v g x role ms)

-- The row of a member after each write: `none` where it is deleted, the new role where it is set.
pub find-insert :
    (h v g x : ℕ) (m : Member) (ms : List Member)
    → is_member h v m ≡ true
    → find? (is_member g x) (m ∷ ms)
      ≡ (if g == h && x == v then some m else find? (is_member g x) ms)
find-insert h v g x m ms e = ground arith

-- Whether a row is there after a deletion and after a change of a role.
pub any-delete :
    (h v g x : ℕ) (ms : List Member)
    → any (is_member g x) (delete_where (is_member h v) ms)
      ≡ (if g == h && x == v then false else any (is_member g x) ms)
any-delete h v g x [] = ground arith
any-delete h v g x (m ∷ ms) = ground (arith, any-delete h v g x ms)

pub any-set_role :
    (h v g x role : ℕ) (ms : List Member)
    → any (is_member g x) (update_where (is_member h v) (with_role role) ms)
      ≡ any (is_member g x) ms
any-set_role h v g x role [] = refl
any-set_role h v g x role (m ∷ ms) = ground (arith, any-set_role h v g x role ms)
