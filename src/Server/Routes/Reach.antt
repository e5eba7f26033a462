-- ===== src/Server/Routes/Reach.antt =====
-- Where the muxes take the requests of the API. A number's text stands in the place of a wildcard, and is
-- no literal segment of the tables.
use chatroom_server.Base.{
  ℕ, ◌≡◌, ◌≤◌, refl, ap, String, false, none, List, [], ◌∷◌, All, arith, Bool-cases, inl, inr,
}
use chatroom_server.Text.Decimal.{format_int}
use chatroom_server.Text.Json.{max_int64}
use chatroom_server.Text.Atoi.{atoi}
use chatroom_server.Text.Atoi.RoundTrip.{atoi-format_int}
use chatroom_server.Server.Mux.{found, find_handler}
use chatroom_server.Server.Routes.{guarded, outer_mux, protected_mux}
use chatroom_server.Server.Routes.Endpoints
use chatroom_server.Server.Routes.Endpoints.{Endpoint, method_of, path_of, ids_of, route_of}
use text.Mathlib.Text.{◌==◌}
use text.Mathlib.TextEquality.{eq_iff}

-- A number is not written as a text that is none.
format_int-ne : (n : ℕ) (s : String) → n ≤ max_int64 → atoi s ≡ none → (s == format_int n) ≡ false
format_int-ne n s h e = elim (Bool-cases (s == format_int n)) [
  | inr b ↦ b
  | inl b ↦
      let same = (eq_iff s (format_int n)).0 b in
      absurd (ground (arith, e, ap atoi same, atoi-format_int n h))
]

-- The literal segments that stand beside wildcards.
not_literal :
    (n : ℕ)
    → n ≤ max_int64
    → (("/" == format_int n) ≡ false)
      × ((("groups" == format_int n) ≡ false)
          × ((("friends" == format_int n) ≡ false) × (("me" == format_int n) ≡ false)))
unfolding atoi
not_literal n h = (
  format_int-ne n "/" h refl,
  (
    format_int-ne n "groups" h refl,
    (format_int-ne n "friends" h refl, format_int-ne n "me" h refl),
  ),
)

-- The ids are numbers of int64.
abbrev pub InRange : Endpoint → Type 0
InRange e = All (λ n. n ≤ max_int64) (ids_of e)

-- The path values of a request.
abbrev pub values_of : Endpoint → List (String × String)
values_of (Endpoints.mark_read room) = ("roomID", format_int room) ∷ []
values_of (Endpoints.add_member room) = ("roomID", format_int room) ∷ []
values_of (Endpoints.exit_group room) = ("roomID", format_int room) ∷ []
values_of (Endpoints.list_members room) = ("roomID", format_int room) ∷ []
values_of (Endpoints.remove_member room uid) =
    ("roomID", format_int room) ∷ ("uid", format_int uid) ∷ []
values_of (Endpoints.set_admin room uid) =
    ("roomID", format_int room) ∷ ("uid", format_int uid) ∷ []
values_of (Endpoints.recall id) = ("id", format_int id) ∷ []
values_of (Endpoints.mark id) = ("id", format_int id) ∷ []
values_of (Endpoints.page room) = ("roomID", format_int room) ∷ []
values_of e = []

pub outer_mux-guarded :
    (e : Endpoint) → find_handler (method_of e) (path_of e) outer_mux ≡ found guarded []
unfolding find_handler
outer_mux-guarded Endpoints.list_rooms = ground arith
outer_mux-guarded Endpoints.create_friend_room = ground arith
outer_mux-guarded Endpoints.create_group = ground arith
outer_mux-guarded (Endpoints.mark_read room) = ground arith
outer_mux-guarded (Endpoints.add_member room) = ground arith
outer_mux-guarded (Endpoints.exit_group room) = ground arith
outer_mux-guarded (Endpoints.list_members room) = ground arith
outer_mux-guarded (Endpoints.remove_member room uid) = ground arith
outer_mux-guarded (Endpoints.set_admin room uid) = ground arith
outer_mux-guarded Endpoints.send = ground arith
outer_mux-guarded (Endpoints.recall id) = ground arith
outer_mux-guarded (Endpoints.mark id) = ground arith
outer_mux-guarded (Endpoints.page room) = ground arith
outer_mux-guarded Endpoints.upload = ground arith
outer_mux-guarded Endpoints.token = ground arith
outer_mux-guarded Endpoints.invite = ground arith
outer_mux-guarded Endpoints.lookup = ground arith
outer_mux-guarded Endpoints.update_profile = ground arith

pub protected_mux-route :
    (e : Endpoint)
    → InRange e
    → find_handler (method_of e) (path_of e) protected_mux ≡ found (route_of e) (values_of e)
unfolding find_handler
protected_mux-route Endpoints.list_rooms h = ground arith
protected_mux-route Endpoints.create_friend_room h = ground arith
protected_mux-route Endpoints.create_group h = ground arith
protected_mux-route (Endpoints.mark_read room) h = ground (arith, not_literal room h.0)
protected_mux-route (Endpoints.add_member room) h = ground (arith, not_literal room h.0)
protected_mux-route (Endpoints.exit_group room) h = ground (arith, not_literal room h.0)
protected_mux-route (Endpoints.list_members room) h = ground (arith, not_literal room h.0)
protected_mux-route (Endpoints.remove_member room uid) h =
    ground (arith, not_literal room h.0, not_literal uid h.1.0)
protected_mux-route (Endpoints.set_admin room uid) h =
    ground (arith, not_literal room h.0, not_literal uid h.1.0)
protected_mux-route Endpoints.send h = ground arith
protected_mux-route (Endpoints.recall id) h = ground (arith, not_literal id h.0)
protected_mux-route (Endpoints.mark id) h = ground (arith, not_literal id h.0)
protected_mux-route (Endpoints.page room) h = ground (arith, not_literal room h.0)
protected_mux-route Endpoints.upload h = ground arith
protected_mux-route Endpoints.token h = ground arith
protected_mux-route Endpoints.invite h = ground arith
protected_mux-route Endpoints.lookup h = ground arith
protected_mux-route Endpoints.update_profile h = ground arith
