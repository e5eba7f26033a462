-- ===== src/Server/Site/Events.antt =====
-- The site at work moves the world by the events of Server/Run.
use chatroom_server.Base.{
  ℕ, ◌≡◌, refl, sym, ap, ◌∙◌, String, List, [], ◌∷◌, ◌++◌, arith, Bool-cases, Option-cases, inl,
  inr,
}
use mathlib.Core.Path.{subst}
use chatroom_server.MemberCache.{MemberCache, IsCache}
use chatroom_server.World.{World, Handler}
use chatroom_server.Http.{Response}
use chatroom_server.Action.{Action}
use chatroom_server.Storage.{Store}
use chatroom_server.Coherence.Invalidation.{IsUp}
use chatroom_server.Room.Requests as Rooms
use chatroom_server.Auth.Token.{Jwt, bearer, parse_token, middleware, middleware_at}
use chatroom_server.Ws.Handler.{leave}
use chatroom_server.Server.Requests.{Parts, Protected, Request, handle_protected}
use chatroom_server.Server.Run.{Event, request, connect, hang_up, happen, run}
use chatroom_server.Server.Run.Invariants.{run-IsSound}
use chatroom_server.Server.Sound.{IsSound}
use chatroom_server.Server.Mux.{Found, found, not_allowed, not_found, find_handler}
use chatroom_server.Server.Routes.{Route, Entrance, outer_mux, protected_mux}
use chatroom_server.Server.Site.{
  HttpRequest, Moment, Decoders, Task, on_world, upload, read_task, Site, MediaParts, in_world,
  serve_site, handle_task, serve_protected, serve_found, at_moment, serve_http,
}
use text.Mathlib.Text.{starts_with}
use Prim.Native.String.{slice, len}

-- A request comes in, or a connection ends.
pub data Arrival : Type 0 where
  comes : HttpRequest → Moment → Arrival
  ends : ℕ → ℕ → Arrival

module _ {C : MemberCache} {S : Store} (P : Parts) (M : MediaParts) (D : Decoders) where
  abbrev pub arrive : Arrival → Site C S → Site C S
  arrive (comes r m) s = (serve_http P M D r m s).1
  arrive (ends uid c) s = record s { world = record s.world { hub = leave uid c s.world.hub } }

  -- The site after the arrivals, each served as a whole.
  abbrev pub run_site : List Arrival → Site C S → Site C S
  run_site [] s = s
  run_site (a ∷ arrivals) s = run_site arrivals (arrive a s)

module _ {C : MemberCache} {S : Store} (jwt : Jwt) (secret header : String) (now : ℕ) where
  -- The middleware before handlers of the world.
  middleware_at-in_world :
      (next : ℕ → Handler C Response) (s : Site C S)
      → (middleware_at jwt secret now (λ uid. in_world {S = S} (next uid)) header s).1.world
        ≡ (middleware_at jwt secret now next header s.world).1
  middleware_at-in_world next s = elim (Bool-cases (starts_with header bearer)) [
    | inr e ↦ ground (arith, e)
    | inl e ↦
        elim (Option-cases (parse_token jwt (slice header (len bearer) (len header)) secret now)) [
          | inl bad ↦ ground (arith, e, bad)
          | inr (uid, good) ↦ ground (arith, e, good)
        ]
  ]

  -- The middleware before handlers that leave the world.
  middleware_at-world :
      (next : ℕ → Action (Site C S) Response Response) (s : Site C S)
      → ((uid : ℕ) → (next uid s).1.world ≡ s.world)
      → (middleware_at jwt secret now next header s).1.world ≡ s.world
  middleware_at-world next s h = elim (Bool-cases (starts_with header bearer)) [
    | inr e ↦ ground (arith, e)
    | inl e ↦
        elim (Option-cases (parse_token jwt (slice header (len bearer) (len header)) secret now)) [
          | inl bad ↦ ground (arith, e, bad)
          | inr (uid, good) ↦ ground (arith, e, good, h uid)
        ]
  ]

-- A request without a token only lets the time pass.
abbrev still : ℕ → Event
still now = request now (Request.protected "" (Protected.rooms Rooms.list_rooms))

module _ {C : MemberCache} (P : Parts) where
  happen-still : (now : ℕ) (w : World C) → happen P (still now) w ≡ record w { now = now }
  unfolding middleware
  happen-still now w = refl

  -- Some events lead from one world to the other.
  abbrev Moves : World C → World C → Type 0
  Moves w w' = (es : List Event) × (w' ≡ run P es w)

  run-append : (es fs : List Event) (w : World C) → run P (es ++ fs) w ≡ run P fs (run P es w)
  run-append [] fs w = refl
  run-append (e ∷ es) fs w = run-append es fs (happen P e w)

module _ {C : MemberCache} {S : Store} (P : Parts) (M : MediaParts) (D : Decoders) where
  module _ (r : HttpRequest) (m : Moment) (s : Site C S) where
    stays : Moves P s.world (at_moment m s).world
    stays = (still m.now ∷ [], sym (happen-still P m.now s.world))

    task-Moves :
        (task : Task)
        → Moves P s.world
            (serve_site
              (middleware_at P.jwt P.secret m.now (handle_task P M m task) r.authorization)
              (at_moment m s)).1.world
    unfolding middleware
    task-Moves (on_world req) = (
      request m.now (Request.protected r.authorization req) ∷ [],
      middleware_at-in_world P.jwt P.secret r.authorization m.now (handle_protected P req)
          (at_moment m s),
    )
    task-Moves (upload form) =
        subst (λ w. Moves P s.world w)
          (sym (
            middleware_at-world P.jwt P.secret r.authorization m.now
              (handle_task P M m (upload form)) (at_moment m s) (λ uid. refl)))
          stays

    protected-Moves :
        (o : Found Route)
        → Moves P s.world
            (serve_site
              (middleware_at P.jwt P.secret m.now (serve_protected P M D o r m) r.authorization)
              (at_moment m s)).1.world
    protected-Moves (found route values) = task-Moves (read_task D route values r)
    protected-Moves not_allowed =
        subst (λ w. Moves P s.world w)
          (sym (
            middleware_at-world P.jwt P.secret r.authorization m.now
              (serve_protected P M D not_allowed r m) (at_moment m s) (λ uid. refl)))
          stays
    protected-Moves not_found =
        subst (λ w. Moves P s.world w)
          (sym (
            middleware_at-world P.jwt P.secret r.authorization m.now
              (serve_protected P M D not_found r m) (at_moment m s) (λ uid. refl)))
          stays

    found-Moves :
        (o : Found Entrance)
        → Moves P s.world (serve_site (serve_found P M D o r m) (at_moment m s)).1.world
    found-Moves not_allowed = stays
    found-Moves not_found = stays
    found-Moves (found Entrance.healthz values) = stays
    found-Moves (found Entrance.register values) =
        (request m.now (Request.register (D.register r.body)) ∷ [], refl)
    found-Moves (found Entrance.login values) =
        (request m.now (Request.login (D.login r.body)) ∷ [], refl)
    found-Moves (found Entrance.serve_ws values) =
        let joins = connect (r.query "token") m.now m.upgraded in
        (
          still m.now ∷ (joins ∷ []),
          ap (λ w. happen P joins w) (sym (happen-still P m.now s.world)),
        )
    found-Moves (found Entrance.download values) = stays
    found-Moves (found Entrance.guarded values) =
        protected-Moves (find_handler r.method r.path protected_mux)

  arrive-Moves : (a : Arrival) (s : Site C S) → Moves P s.world (arrive P M D a s).world
  unfolding serve_http
  arrive-Moves (comes r m) s = found-Moves r m s (find_handler r.method r.path outer_mux)
  arrive-Moves (ends uid c) s = (hang_up uid c ∷ [], refl)

  -- Whatever HTTP requests come in and connections end, each served as a whole, the database session, the
  -- cache, the hub and the clock are as some run of the server's events leaves them.
  pub run_site-run :
      (arrivals : List Arrival) (s : Site C S)
      → (es : List Event) × ((run_site P M D arrivals s).world ≡ run P es s.world)
  run_site-run [] s = ([], refl)
  run_site-run (a ∷ arrivals) s =
      let (es, first) = arrive-Moves a s in
      let (fs, then') = run_site-run arrivals (arrive P M D a s) in
      (es ++ fs, then' ∙ ap (λ w. run P fs w) first ∙ sym (run-append P es fs s.world))

  -- With a cache that keeps its laws, is in use and whose server takes every invalidation, and from a site
  -- with a sound world: whatever HTTP requests come in, and whatever statements fail, the cache stays in
  -- step with the tables, and the rooms stay numbered below the table's counter.
  pub run_site-IsSound :
      IsCache C
      → IsUp C
      → (arrivals : List Arrival) (s : Site C S) → IsSound C s.world
      → IsSound C (run_site P M D arrivals s).world
  run_site-IsSound lawful up arrivals s p =
      let (es, moved) = run_site-run arrivals s in
      subst (λ w. IsSound C w) (sym moved) (run-IsSound lawful P up es s.world p)
