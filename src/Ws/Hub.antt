-- ===== src/Ws/Hub.antt =====
-- internal/ws/hub.go: the connections of each user. A connection is known by a number, and `sent` is
-- the log of all writes, the last first; whether a write succeeds is not looked at by the hub. A Go map
-- is a list of entries, whose order stands for the order in which `range` visits them.
pub mod Connections
pub mod Delivery
use chatroom_server.Base.{
  ℕ, String, Bool, true, false, not, List, [], ◌∷◌, ◌==◌, if◌then◌else◌, filter, contains,
}

pub record Hub : Type 0 where
  pub conns : List (ℕ × List ℕ)
  pub sent : List (ℕ × String)

abbrev pub new_hub : Hub
new_hub = record { conns = []; sent = [] }

-- `h.conns[uid]`; a missing key reads as the nil map, which has no connection.
abbrev pub conns_of : List (ℕ × List ℕ) → ℕ → List ℕ
conns_of [] uid = []
conns_of ((u, cs) ∷ m) uid = let rest = conns_of m uid in if u == uid then cs else rest

-- `set[c] = struct{}{}`
abbrev pub add_conn : ℕ → List ℕ → List ℕ
add_conn c cs = if contains cs c then cs else c ∷ cs

-- `delete(set, c)`
abbrev pub drop_conn : ℕ → List ℕ → List ℕ
drop_conn c cs = filter (λ x. not (x == c)) cs

-- The entry of `uid`, made if it is missing, gets the connection.
abbrev pub register_in : ℕ → ℕ → List (ℕ × List ℕ) → List (ℕ × List ℕ)
register_in uid c [] = (uid, c ∷ []) ∷ []
register_in uid c ((u, cs) ∷ m) =
    let rest = register_in uid c m in if u == uid then (u, add_conn c cs) ∷ m else (u, cs) ∷ rest

-- An entry that has no connection left is deleted.
abbrev pub keep_entry : ℕ → List ℕ → List (ℕ × List ℕ) → List (ℕ × List ℕ)
keep_entry u [] m = m
keep_entry u (c ∷ cs) m = (u, c ∷ cs) ∷ m

abbrev pub unregister_in : ℕ → ℕ → List (ℕ × List ℕ) → List (ℕ × List ℕ)
unregister_in uid c [] = []
unregister_in uid c ((u, cs) ∷ m) =
    let rest = unregister_in uid c m in
    if u == uid then keep_entry u (drop_conn c cs) m else (u, cs) ∷ rest

-- `Register`
unfoldable pub register : ℕ → ℕ → Hub → Hub
register uid c h = record h { conns = register_in uid c h.conns }

-- `Unregister`
unfoldable pub unregister : ℕ → ℕ → Hub → Hub
unregister uid c h = record h { conns = unregister_in uid c h.conns }

-- `c.WriteMessage(1, payload)` for each connection of a set.
abbrev pub write_all : List ℕ → String → List (ℕ × String) → List (ℕ × String)
write_all [] payload sent = sent
write_all (c ∷ cs) payload sent = write_all cs payload ((c, payload) ∷ sent)

abbrev pub send_each : List (ℕ × List ℕ) → List ℕ → String → List (ℕ × String) → List (ℕ × String)
send_each m [] payload sent = sent
send_each m (uid ∷ uids) payload sent =
    send_each m uids payload (write_all (conns_of m uid) payload sent)

abbrev pub broadcast_each : List (ℕ × List ℕ) → String → List (ℕ × String) → List (ℕ × String)
broadcast_each [] payload sent = sent
broadcast_each ((u, cs) ∷ m) payload sent = broadcast_each m payload (write_all cs payload sent)

-- `SendToUsers`
unfoldable pub send_to_users : List ℕ → String → Hub → Hub
send_to_users uids payload h = record h { sent = send_each h.conns uids payload h.sent }

-- `BroadcastAll`
unfoldable pub broadcast_all : String → Hub → Hub
broadcast_all payload h = record h { sent = broadcast_each h.conns payload h.sent }
