-- ===== src/Server/Sound.antt =====
-- What every request of the server keeps of the world.
pub mod Reading
pub mod Posting
pub mod Users
pub mod Rooms
use chatroom_server.Base.{
  ℕ, ◌<◌, ◌≡◌, refl, sym, ap, ◌∙◌, Bool, true, false, Option, none, some, List, [], ◌∷◌, ◌==◌,
  find?, any, arith, if◌then◌else◌,
}
use chatroom_server.Base.Rows.{update_where}
use mathlib.Core.Path.{subst}
use chatroom_server.MemberCache.{MemberCache}
use chatroom_server.World.{World}
use chatroom_server.Room.Model.{Room, Member}
use chatroom_server.Room.Rows.{has_id}
use chatroom_server.Coherence.{IsCoherent}

-- The cache is in step with the tables, and the rooms stand below the next AUTO_INCREMENT value.
pub record IsSound (C : MemberCache) (w : World C) : Type 0 where
  pub coherent : IsCoherent C w
  pub numbered :
      (k : ℕ) → any (has_id k) w.session.tables.rooms ≡ true → k < w.session.tables.next.room

-- The world is sound, and has the members and the next room that are named.
pub record IsKept (C : MemberCache) (members : List Member) (next : ℕ) (w : World C) : Type 0 where
  pub sound : IsSound C w
  pub same_members : w.session.tables.members ≡ members
  pub same_next : w.session.tables.next.room ≡ next

module _ {C : MemberCache} {members : List Member} {next : ℕ} where
  -- A step that leaves alone the cache, the members, the next room and the ids of the rooms.
  pub IsKept-frame :
      (w w' : World C)
      → w'.cache ≡ w.cache
      → w'.session.tables.members ≡ w.session.tables.members
      → w'.session.tables.next.room ≡ w.session.tables.next.room
      → ((k : ℕ) → any (has_id k) w'.session.tables.rooms ≡ any (has_id k) w.session.tables.rooms)
      → IsKept C members next w
      → IsKept C members next w'
  IsKept-frame w w' c m n r p = record {
    sound = record {
      coherent = record {
        known = λ g us h. ground (arith, c, n, p.sound.coherent.known g us);
        exact = λ g v us h. ground (arith, c, m, p.sound.coherent.exact g v us);
      };
      numbered = λ k h. ground (arith, n, r k, p.sound.numbered k);
    };
    same_members = m ∙ p.same_members;
    same_next = n ∙ p.same_next;
  }

  -- A step that leaves alone the cache and the tables.
  pub IsKept-tables :
      (w w' : World C)
      → (w'.session.tables ≡ w.session.tables) × (w'.cache ≡ w.cache)
      → IsKept C members next w
      → IsKept C members next w'
  IsKept-tables w w' (t, c) p =
      IsKept-frame w w' c (ap (λ x. x.members) t) (ap (λ x. x.next.room) t)
        (λ k. ap (λ x. any (has_id k) x.rooms) t) p

-- A row that is found has the id, and it is in the table.
pub find-has_id :
    (k : ℕ) (rm : Room) (rs : List Room)
    → find? (has_id k) rs ≡ some rm
    → (rm.id ≡ k) × (any (has_id k) rs ≡ true)
find-has_id k rm [] h = cc
find-has_id k rm (r ∷ rs) h = ground (arith, find-has_id k rm rs)

-- Updates that keep the ids.
pub any-update_id :
    (k g : ℕ) (f : Room → Room)
    → ((r : Room) → (f r).id ≡ r.id)
    → (rs : List Room) → any (has_id k) (update_where (has_id g) f rs) ≡ any (has_id k) rs
any-update_id k g f same [] = refl
any-update_id k g f same (r ∷ rs) = ground (arith, same r, any-update_id k g f same rs)
