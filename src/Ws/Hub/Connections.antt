-- ===== src/Ws/Hub/Connections.antt =====
-- internal/ws/hub.go: `Register` and `Unregister` against the plain view of the hub, a set of
-- connections for each user.
use chatroom_server.Base.{
  ℕ, ◌≡◌, refl, Bool, true, false, ◌||◌, ◌≢◌, List, [], ◌∷◌, ◌==◌, if◌then◌else◌, contains, arith,
}
use chatroom_server.Ws.Hub.{
  Hub, conns_of, add_conn, drop_conn, register_in, keep_entry, unregister_in, register, unregister,
}

-- The user has an entry.
abbrev pub has_key : List (ℕ × List ℕ) → ℕ → Bool
has_key [] uid = false
has_key ((u, cs) ∷ m) uid = (u == uid) || has_key m uid

abbrev pub is_empty : List ℕ → Bool
is_empty [] = true
is_empty (c ∷ cs) = false

-- No connection is listed twice.
abbrev pub IsDistinct : List ℕ → Type 0
IsDistinct [] = Unit
IsDistinct (c ∷ cs) = (contains cs c ≡ false) × IsDistinct cs

-- A map of sets: no user has two entries, no entry is empty, and no set lists a connection twice.
abbrev pub IsWellFormed : List (ℕ × List ℕ) → Type 0
IsWellFormed [] = Unit
IsWellFormed ((u, cs) ∷ m) =
    (has_key m u ≡ false) × (is_empty cs ≡ false) × IsDistinct cs × IsWellFormed m

conns_of_missing : (m : List (ℕ × List ℕ)) (u : ℕ) → has_key m u ≡ false → conns_of m u ≡ []
conns_of_missing [] u h = refl
conns_of_missing ((v, cs) ∷ m) u h = ground (arith, conns_of_missing m u)

contains-drop :
    (c d : ℕ) (cs : List ℕ) → contains cs d ≡ false → contains (drop_conn c cs) d ≡ false
contains-drop c d [] h = refl
contains-drop c d (x ∷ cs) h = ground (arith, contains-drop c d cs)

drop-IsDistinct : (c : ℕ) (cs : List ℕ) → IsDistinct cs → IsDistinct (drop_conn c cs)
drop-IsDistinct c [] h = tt
drop-IsDistinct c (x ∷ cs) h = ground (arith, drop-IsDistinct c cs h.1, contains-drop c x cs h.0)

add-IsDistinct : (c : ℕ) (cs : List ℕ) → IsDistinct cs → IsDistinct (add_conn c cs)
add-IsDistinct c cs h = ground arith

has_key-register_in :
    (uid c : ℕ) (m : List (ℕ × List ℕ)) (v : ℕ)
    → has_key (register_in uid c m) v ≡ (uid == v || has_key m v)
has_key-register_in uid c [] v = ground arith
has_key-register_in uid c ((u, cs) ∷ m) v = ground (arith, has_key-register_in uid c m v)

has_key-keep :
    (u : ℕ) (cs : List ℕ) (m : List (ℕ × List ℕ)) (v : ℕ)
    → u ≢ v
    → has_key (keep_entry u cs m) v ≡ has_key m v
has_key-keep u [] m v h = refl
has_key-keep u (c ∷ cs) m v h = ground arith

has_key-unregister_in :
    (uid c : ℕ) (m : List (ℕ × List ℕ)) (v : ℕ)
    → has_key m v ≡ false
    → has_key (unregister_in uid c m) v ≡ false
has_key-unregister_in uid c [] v h = refl
has_key-unregister_in uid c ((u, cs) ∷ m) v h =
    ground (arith, has_key-unregister_in uid c m v, has_key-keep u (drop_conn c cs) m v)

add-nonempty : (c : ℕ) (cs : List ℕ) → is_empty cs ≡ false → is_empty (add_conn c cs) ≡ false
add-nonempty c (x ∷ cs) h = ground arith
add-nonempty c [] h = cc

register_in-IsWellFormed :
    (uid c : ℕ) (m : List (ℕ × List ℕ)) → IsWellFormed m → IsWellFormed (register_in uid c m)
register_in-IsWellFormed uid c [] h = (refl, refl, (refl, tt), tt)
register_in-IsWellFormed uid c ((u, cs) ∷ m) h = ground (
  arith,
  register_in-IsWellFormed uid c m h.3,
  has_key-register_in uid c m u,
  add-IsDistinct c cs h.2,
  add-nonempty c cs h.1,
)

keep-IsWellFormed :
    (u : ℕ) (cs : List ℕ) (m : List (ℕ × List ℕ))
    → has_key m u ≡ false
    → IsDistinct cs
    → IsWellFormed m
    → IsWellFormed (keep_entry u cs m)
keep-IsWellFormed u [] m k d h = h
keep-IsWellFormed u (c ∷ cs) m k d h = (k, refl, d, h)

unregister_in-IsWellFormed :
    (uid c : ℕ) (m : List (ℕ × List ℕ)) → IsWellFormed m → IsWellFormed (unregister_in uid c m)
unregister_in-IsWellFormed uid c [] h = tt
unregister_in-IsWellFormed uid c ((u, cs) ∷ m) h = ground (
  arith,
  unregister_in-IsWellFormed uid c m h.3,
  has_key-unregister_in uid c m u h.0,
  keep-IsWellFormed u (drop_conn c cs) m h.0 (drop-IsDistinct c cs h.2) h.3,
)

conns_of-register_in :
    (uid c : ℕ) (m : List (ℕ × List ℕ)) (v : ℕ)
    → conns_of (register_in uid c m) v
      ≡ (if v == uid then add_conn c (conns_of m v) else conns_of m v)
conns_of-register_in uid c [] v = ground arith
conns_of-register_in uid c ((u, cs) ∷ m) v = ground (arith, conns_of-register_in uid c m v)

conns_of-keep :
    (u : ℕ) (cs : List ℕ) (m : List (ℕ × List ℕ)) (v : ℕ)
    → has_key m u ≡ false
    → conns_of (keep_entry u cs m) v ≡ (if u == v then cs else conns_of m v)
conns_of-keep u [] m v h = ground (arith, conns_of_missing m u h, conns_of_missing m v)
conns_of-keep u (c ∷ cs) m v h = refl

conns_of-unregister_in :
    (uid c : ℕ) (m : List (ℕ × List ℕ)) (v : ℕ)
    → IsWellFormed m
    → conns_of (unregister_in uid c m) v
      ≡ (if v == uid then drop_conn c (conns_of m v) else conns_of m v)
conns_of-unregister_in uid c [] v h = ground arith
conns_of-unregister_in uid c ((u, cs) ∷ m) v h =
    ground (arith, conns_of-unregister_in uid c m v h.3, conns_of-keep u (drop_conn c cs) m v h.0)

-- `Register` adds the connection to the user's set, and leaves every other set as it is.
pub conns_of-register :
    (uid c v : ℕ) (h : Hub)
    → conns_of (register uid c h).conns v
      ≡ (if v == uid then add_conn c (conns_of h.conns v) else conns_of h.conns v)
unfolding register
conns_of-register uid c v h = conns_of-register_in uid c h.conns v

-- On a well-formed hub `Unregister` takes the connection out of the user's set, and leaves every
-- other set as it is.
pub conns_of-unregister :
    (uid c v : ℕ) (h : Hub)
    → IsWellFormed h.conns
    → conns_of (unregister uid c h).conns v
      ≡ (if v == uid then drop_conn c (conns_of h.conns v) else conns_of h.conns v)
unfolding unregister
conns_of-unregister uid c v h wf = conns_of-unregister_in uid c h.conns v wf

-- `Register` and `Unregister` keep a well-formed hub well formed; so no empty set is left behind by
-- the last connection of a user.
pub register-IsWellFormed :
    (uid c : ℕ) (h : Hub)
    → IsWellFormed h.conns
    → IsWellFormed (register uid c h).conns × IsWellFormed (unregister uid c h).conns
unfolding register unregister
register-IsWellFormed uid c h wf =
    (register_in-IsWellFormed uid c h.conns wf, unregister_in-IsWellFormed uid c h.conns wf)
