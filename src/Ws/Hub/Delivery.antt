-- ===== src/Ws/Hub/Delivery.antt =====
-- internal/ws/hub.go: which connections `SendToUsers` and `BroadcastAll` write to, and how often.
use chatroom_server.Base.{
  ℕ, ◌+◌, ◌≡◌, refl, String, true, false, List, [], ◌∷◌, ◌==◌, if◌then◌else◌, contains, count,
  arith, ◌<◌, Bool-cases, inl, inr, ==_iff,
}
use chatroom_server.Ws.Hub.{
  Hub, conns_of, write_all, send_each, broadcast_each, send_to_users, broadcast_all,
}

-- The writes to one connection.
abbrev pub deliveries : ℕ → List (ℕ × String) → ℕ
deliveries c [] = 0
deliveries c ((d, p) ∷ sent) = (if d == c then 1 else 0) + deliveries c sent

-- How often a connection stands in the sets of the users, one after the other.
abbrev pub held_by : ℕ → List (ℕ × List ℕ) → List ℕ → ℕ
held_by c m [] = 0
held_by c m (uid ∷ uids) = count c (conns_of m uid) + held_by c m uids

-- How often it stands in all sets.
abbrev pub held : ℕ → List (ℕ × List ℕ) → ℕ
held c [] = 0
held c ((u, cs) ∷ m) = count c cs + held c m

deliveries-write_all :
    (c : ℕ) (cs : List ℕ) (p : String) (sent : List (ℕ × String))
    → deliveries c (write_all cs p sent) ≡ count c cs + deliveries c sent
deliveries-write_all c [] p sent = omega arith
deliveries-write_all c (d ∷ cs) p sent = omega (arith, deliveries-write_all c cs p ((d, p) ∷ sent))

deliveries-send_each :
    (c : ℕ) (m : List (ℕ × List ℕ)) (uids : List ℕ) (p : String) (sent : List (ℕ × String))
    → deliveries c (send_each m uids p sent) ≡ held_by c m uids + deliveries c sent
deliveries-send_each c m [] p sent = omega arith
deliveries-send_each c m (uid ∷ uids) p sent = omega (
  arith,
  deliveries-send_each c m uids p (write_all (conns_of m uid) p sent),
  deliveries-write_all c (conns_of m uid) p sent,
)

deliveries-broadcast_each :
    (c : ℕ) (m : List (ℕ × List ℕ)) (p : String) (sent : List (ℕ × String))
    → deliveries c (broadcast_each m p sent) ≡ held c m + deliveries c sent
deliveries-broadcast_each c [] p sent = omega arith
deliveries-broadcast_each c ((u, cs) ∷ m) p sent =
    omega (
      arith,
      deliveries-broadcast_each c m p (write_all cs p sent),
      deliveries-write_all c cs p sent,
    )

-- `SendToUsers` writes to a connection once for each time that it is held by a listed user, and to no
-- other; `BroadcastAll` writes to it once for each user that holds it.
pub deliveries-send :
    (c : ℕ) (uids : List ℕ) (p : String) (h : Hub)
    → (deliveries c (send_to_users uids p h).sent ≡ held_by c h.conns uids + deliveries c h.sent)
      × (deliveries c (broadcast_all p h).sent ≡ held c h.conns + deliveries c h.sent)
unfolding send_to_users broadcast_all
deliveries-send c uids p h =
    (deliveries-send_each c h.conns uids p h.sent, deliveries-broadcast_each c h.conns p h.sent)

count-absent : (c : ℕ) (cs : List ℕ) → contains cs c ≡ false → count c cs ≡ 0
count-absent c [] h = refl
count-absent c (d ∷ cs) h = ground (arith, count-absent c cs)

-- A connection that no listed user holds is not counted.
pub held_by-none :
    (c : ℕ) (m : List (ℕ × List ℕ)) (uids : List ℕ)
    → ((u : ℕ) → contains uids u ≡ true → contains (conns_of m u) c ≡ false)
    → held_by c m uids ≡ 0
held_by-none c m [] h = refl
held_by-none c m (uid ∷ uids) h = omega (
  arith,
  count-absent c (conns_of m uid) (h uid (ground arith)),
  held_by-none c m uids (λ u e. h u (ground arith)),
)

count-present : (c : ℕ) (cs : List ℕ) → contains cs c ≡ true → 0 < count c cs
count-present c [] h = cc
count-present c (d ∷ cs) h = ground (arith, count-present c cs)

-- A connection of a listed user is counted.
pub held_by-pos :
    (c u : ℕ) (m : List (ℕ × List ℕ)) (uids : List ℕ)
    → contains uids u ≡ true
    → contains (conns_of m u) c ≡ true
    → 0 < held_by c m uids
held_by-pos c u m [] l h = cc
held_by-pos c u m (uid ∷ uids) l h = elim (Bool-cases (uid == u)) [
  | inl e ↦ omega (arith, count-present c (conns_of m uid) (rw ((==_iff uid u).0 e) h))
  | inr e ↦ omega (arith, held_by-pos c u m uids (ground arith) h)
]
