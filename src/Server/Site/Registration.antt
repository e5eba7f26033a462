-- ===== src/Server/Site/Registration.antt =====
-- The only route to the registration of an account.
use chatroom_server.Base.{◌≡◌, refl, sym, String, Option, some, List, [], ◌∷◌, All, arith, inl, inr}
use mathlib.Core.Path.{subst}
use chatroom_server.Server.Mux.{Segment, lit, found, find_handler}
use chatroom_server.Server.Mux.Laws.{find_handler-Fits, Fits, Takes}
use chatroom_server.Server.Routes.{Entrance, outer_mux}
use chatroom_server.Server.Site.{HttpRequest}
use text.Mathlib.TextEquality.{eq_iff}

-- The request that registers an account.
abbrev pub IsRegistration : HttpRequest → Type 0
IsRegistration r = (r.method ≡ "POST") × (r.path ≡ "api" ∷ "auth" ∷ "register" ∷ [])

-- What a pattern for the registration is made of.
abbrev OpensAt : Entrance → Option String → List Segment → Type 0
OpensAt Entrance.register method path =
    (method ≡ some "POST") × (path ≡ lit "api" ∷ lit "auth" ∷ lit "register" ∷ [])
OpensAt _ method path = Unit

outer_mux-Opens : All (λ p. OpensAt p.target p.method p.path) outer_mux
outer_mux-Opens =
    (tt, ((refl, refl), (tt, (tt, (tt, (tt, (tt, (tt, (tt, (tt, (tt, (tt, (tt, (tt, tt))))))))))))))

Fits-register :
    (path : List String)
    → Fits (lit "api" ∷ lit "auth" ∷ lit "register" ∷ []) path
    → path ≡ "api" ∷ "auth" ∷ "register" ∷ []
Fits-register [] h = absurd h
Fits-register (a ∷ []) h = absurd h.1
Fits-register (a ∷ b ∷ []) h = absurd h.1.1
Fits-register (a ∷ b ∷ c ∷ []) h = ground (arith, h)
Fits-register (a ∷ b ∷ c ∷ d ∷ path) h = absurd h.1.1.1

Takes-post : (m : String) → Takes (some "POST") m → m ≡ "POST"
Takes-post m (inl e) = sym e
Takes-post m (inr (e, h)) = absurd (ground (arith, (eq_iff "POST" "GET").1 e))

pub find_handler-IsRegistration :
    (r : HttpRequest) (values : List (String × String))
    → find_handler r.method r.path outer_mux ≡ found Entrance.register values
    → IsRegistration r
find_handler-IsRegistration r values e =
    let (p, (opens, (target, (fits, takes)))) =
      find_handler-Fits (λ p. OpensAt p.target p.method p.path) r.method r.path outer_mux
        Entrance.register values outer_mux-Opens e in
    let (method, path) = subst (λ x. OpensAt x p.method p.path) target opens in
    (
      Takes-post r.method (subst (λ x. Takes x r.method) method takes),
      Fits-register r.path (subst (λ x. Fits x r.path) path fits),
    )
