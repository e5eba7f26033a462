-- ===== src/Server/Run/Owner.antt =====
-- The owner of a group whatever the users ask of the server.
use chatroom_server.Base.{
  ℕ, ◌≡◌, refl, sym, ap, ◌∙◌, some, List, [], ◌∷◌, find?, All, arith, inl, inr,
}
use mathlib.Core.Path.{subst}
use chatroom_server.MemberCache.{MemberCache, IsCache}
use chatroom_server.World.{World, serve}
use chatroom_server.Room.Rows.{is_member}
use chatroom_server.Room.Requests as Rooms
use chatroom_server.Room.Ownership.{IsOwnedBy, IsNoSelfDemotion, is_owner, handle-IsOwnedBy}
use chatroom_server.Coherence.Invalidation.{IsUp}
use chatroom_server.Server.Requests.{Parts, Request, Protected, handle_protected}
use chatroom_server.Server.Sound.{IsSound, IsKept, IsKept-tables}
use chatroom_server.Server.Sound.Users.{handle_login-Same, handle_register-Kept}
use chatroom_server.Server.Run.{Event, request, connect, hang_up, answer, happen, run}
use chatroom_server.Server.Run.Invariants.{
  caller, middleware-runs, kept, protected-KeptFrom, elsewhere, happen-IsSound,
}

-- The event is not the request of the owner `u` of `g` to change its own role.
abbrev pub IsNoSelfDemotionIn : Parts → ℕ → ℕ → Event → Type 0
IsNoSelfDemotionIn P g u (request now (Request.protected header (Protected.rooms req))) =
    (uid : ℕ) → caller P.jwt P.secret header now ≡ some uid → IsNoSelfDemotion g u (uid, req)
IsNoSelfDemotionIn P g u _ = Unit

module _ {C : MemberCache} (lawful : IsCache C) (P : Parts) (g u : ℕ) where
  owned :
      (w w' : World C)
      → IsKept C w.session.tables.members w.session.tables.next.room w'
      → IsOwnedBy g u w.session.tables
      → IsOwnedBy g u w'.session.tables
  owned w w' k o = record {
    old = ground (arith, o.old, k.same_next);
    one_owner = λ v. ap (λ ms. is_owner (find? (is_member g v) ms)) k.same_members ∙ o.one_owner v;
  }

  protected-IsOwnedBy :
      (uid : ℕ) (req : Protected) (w : World C)
      → IsSound C w
      → IsOwnedBy g u w.session.tables
      → ((r : Rooms.Request) → req ≡ Protected.rooms r → IsNoSelfDemotion g u (uid, r))
      → IsOwnedBy g u (serve (handle_protected P req uid) w).1.session.tables
  protected-IsOwnedBy uid req w p o other = elim (protected-KeptFrom lawful P w p uid req) [
    | inl (r, e) ↦
        subst (λ q. IsOwnedBy g u (serve (handle_protected P q uid) w).1.session.tables) (sym e)
          (handle-IsOwnedBy g u uid r w o (other r e))
    | inr k ↦ owned w _ k o
  ]

  answer-IsOwnedBy :
      (now : ℕ) (req : Request) (w : World C)
      → IsSound C w
      → IsOwnedBy g u w.session.tables
      → IsNoSelfDemotionIn P g u (request now req)
      → IsOwnedBy g u (answer P now req w).1.session.tables
  answer-IsOwnedBy now (Request.register body) w p o other =
      let v = record w { now = now } in
      let q = kept lawful P v (elsewhere lawful P w p v (refl, refl)) in
      owned v _ (handle_register-Kept _ _ P.collate P.bcrypt body v q) o
  answer-IsOwnedBy now (Request.login body) w p o other =
      let v = record w { now = now } in
      let q = kept lawful P v (elsewhere lawful P w p v (refl, refl)) in
      owned v _
        (IsKept-tables v (answer P now (Request.login body) w).1
          (handle_login-Same P.collate P.bcrypt P.jwt P.secret P.ttl body v) q)
        o
  answer-IsOwnedBy now (Request.protected header req) w p o other =
      let v = record w { now = now } in
      let q = elsewhere lawful P w p v (refl, refl) in
      elim (middleware-runs P.jwt P.secret header (handle_protected P req) v) [
        | inl (uid, (good, e)) ↦
            subst (λ x. IsOwnedBy g u (serve (λ (y : World C). x) v).1.session.tables) (sym e)
              (protected-IsOwnedBy uid req v q o (λ r is.
                subst (λ x. IsNoSelfDemotionIn P g u (request now (Request.protected header x))) is
                  other uid good))
        | inr e ↦ subst (λ x. IsOwnedBy g u x.session.tables) (sym e) o
      ]

  happen-IsOwnedBy :
      (e : Event) (w : World C)
      → IsSound C w
      → IsOwnedBy g u w.session.tables
      → IsNoSelfDemotionIn P g u e
      → IsOwnedBy g u (happen P e w).session.tables
  happen-IsOwnedBy (request now req) w p o other = answer-IsOwnedBy now req w p o other
  happen-IsOwnedBy (connect token now upgraded) w p o other = o
  happen-IsOwnedBy (hang_up uid c) w p o other = o

  -- With a cache that keeps its laws, is in use and whose server takes every invalidation, and from a sound
  -- world: a group that has one owner keeps it, whatever requests and connections follow one another and
  -- whatever statements fail, if no request is the owner's own, by the token that it carries, to make itself
  -- an admin or a plain member of the group.
  pub run_server-IsOwnedBy :
      IsUp C
      → (es : List Event) (w : World C) → IsSound C w
      → IsOwnedBy g u w.session.tables
      → All (IsNoSelfDemotionIn P g u) es
      → IsOwnedBy g u (run P es w).session.tables
  run_server-IsOwnedBy up [] w p o other = o
  run_server-IsOwnedBy up (e ∷ es) w p o other =
      run_server-IsOwnedBy up es (happen P e w) (happen-IsSound lawful P up e w p)
        (happen-IsOwnedBy e w p o other.0) other.1
