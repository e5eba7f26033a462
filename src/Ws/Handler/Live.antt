-- ===== src/Ws/Handler/Live.antt =====
-- The connections that are being served while others come and go: `serveWS` of internal/ws/handler.go
-- over the hub.
use chatroom_server.Base.{
  ℕ, ◌≡◌, refl, String, Bool, true, false, not, ◌&&◌, ◌||◌, Option, none, some, List, [], ◌∷◌, ◌==◌,
  any, contains, arith,
}
use chatroom_server.Base.Rows.{delete_where}
use chatroom_server.Auth.Token.{Jwt, parse_token}
use chatroom_server.Ws.Hub.{
  Hub, new_hub, conns_of, register, add_conn, drop_conn, send_to_users, broadcast_all,
}
use chatroom_server.Ws.Hub.Connections.{
  IsWellFormed, conns_of-register, conns_of-unregister, register-IsWellFormed,
}
use chatroom_server.Ws.Handler.{serving, enter, handshake, leave, has_ended}

-- The hub, and the user and the connection of each call of `serveWS` that has not returned.
pub record Live : Type 0 where
  pub hub : Hub
  pub calls : List (ℕ × ℕ)

abbrev pub is_call : ℕ → ℕ → ℕ × ℕ → Bool
is_call uid c (u, d) = u == uid && d == c

abbrev pub has_conn : ℕ → ℕ × ℕ → Bool
has_conn c (u, d) = d == c

-- A new call gets a connection that no other call has. A call returns once a read has failed. Between
-- them others push.
pub data Step (jwt : Jwt) (secret : String) (l : Live) : Live → Type 0 where
  connect :
      (token : String) (now : ℕ) (upgraded : Option ℕ) (uid c : ℕ) (h : Hub)
      → handshake jwt secret token now upgraded l.hub ≡ serving uid c h
      → any (has_conn c) l.calls ≡ false
      → Step jwt secret l (record { hub = h; calls = (uid, c) ∷ l.calls })
  hang_up :
      (uid c : ℕ) (reads : List Bool)
      → any (is_call uid c) l.calls ≡ true
      → has_ended reads ≡ true
      → Step jwt secret l
          (record { hub = leave uid c l.hub; calls = delete_where (is_call uid c) l.calls })
  send :
      (uids : List ℕ) (payload : String)
      → Step jwt secret l (record l { hub = send_to_users uids payload l.hub })
  broadcast :
      (payload : String) → Step jwt secret l (record l { hub = broadcast_all payload l.hub })

pub data Reach (jwt : Jwt) (secret : String) : Live → Type 0 where
  here : Reach jwt secret (record { hub = new_hub; calls = [] })
  next : {l m : Live} → Reach jwt secret l → Step jwt secret l m → Reach jwt secret m

-- The hub is well formed, and holds for each user the connections of the user's calls.
pub record IsTracked (l : Live) : Type 0 where
  pub formed : IsWellFormed l.hub.conns
  pub held : (v c : ℕ) → contains (conns_of l.hub.conns v) c ≡ any (is_call v c) l.calls

contains-add : (c d : ℕ) (cs : List ℕ) → contains (add_conn c cs) d ≡ (c == d || contains cs d)
contains-add c d cs = ground arith

contains-drop :
    (c d : ℕ) (cs : List ℕ) → contains (drop_conn c cs) d ≡ (not (d == c) && contains cs d)
contains-drop c d [] = ground arith
contains-drop c d (x ∷ cs) = ground (arith, contains-drop c d cs)

any-call :
    (uid c v d : ℕ) (calls : List (ℕ × ℕ))
    → any (is_call v d) (delete_where (is_call uid c) calls)
      ≡ (not (v == uid && d == c) && any (is_call v d) calls)
any-call uid c v d [] = ground arith
any-call uid c v d ((u, e) ∷ calls) = ground (arith, any-call uid c v d calls)

-- A handshake that goes on has registered the connection for the user whom the token names.
serving-register :
    (jwt : Jwt) (secret token : String) (now : ℕ) (upgraded : Option ℕ) (uid c : ℕ) (h h' : Hub)
    → handshake jwt secret token now upgraded h ≡ serving uid c h'
    → (parse_token jwt token secret now ≡ some uid) × (h' ≡ register uid c h)
unfolding handshake
serving-register jwt secret token now upgraded uid c h h' e =
    entered (parse_token jwt token secret now) upgraded e
  where
    entered :
        (o upgraded : Option ℕ)
        → enter o upgraded h ≡ serving uid c h'
        → (o ≡ some uid) × (h' ≡ register uid c h)
    entered none upgraded e = cc
    entered (some u) none e = cc
    entered (some u) (some d) e = ground arith

Step-IsTracked :
    {jwt : Jwt} {secret : String} {l m : Live} → Step jwt secret l m → IsTracked l → IsTracked m
Step-IsTracked {jwt} {secret} {l} (connect token now upgraded uid c h e fresh) t =
    let r = (serving-register jwt secret token now upgraded uid c l.hub h e).1 in
    record {
      formed = rw r (register-IsWellFormed uid c l.hub t.formed).0;
      held = λ v d. ground (
        arith,
        r,
        conns_of-register uid c v l.hub,
        contains-add c d (conns_of l.hub.conns v),
        t.held v d,
      );
    }
Step-IsTracked {jwt} {secret} {l} (hang_up uid c reads live ended) t = record {
  formed = unfold leave in (register-IsWellFormed uid c l.hub t.formed).1;
  held = λ v d.
      unfold leave in
      ground (
        arith,
        conns_of-unregister uid c v l.hub t.formed,
        contains-drop c d (conns_of l.hub.conns v),
        any-call uid c v d l.calls,
        t.held v d,
      );
}
Step-IsTracked {jwt} {secret} {l} (send uids payload) t =
    unfold send_to_users in record { formed = t.formed; held = t.held }
Step-IsTracked {jwt} {secret} {l} (broadcast payload) t =
    unfold broadcast_all in record { formed = t.formed; held = t.held }

-- However calls of `serveWS` and pushes follow one another, the hub stays well formed and holds for each
-- user exactly the connections whose call has registered the user and has not returned.
pub Reach-IsTracked : {jwt : Jwt} {secret : String} {l : Live} → Reach jwt secret l → IsTracked l
Reach-IsTracked here = record { formed = tt; held = λ v c. refl }
Reach-IsTracked (next r s) = Step-IsTracked s (Reach-IsTracked r)
