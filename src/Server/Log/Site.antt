-- ===== src/Server/Log/Site.antt =====
-- The messages under any HTTP requests.
use chatroom_server.Base.{
  ℕ, ◌+◌, ◌<◌, ◌≡◌, ◌⊎◌, refl, sym, ap, ◌∙◌, false, some, List, find?, length,
}
use mathlib.Core.Path.{subst}
use chatroom_server.MemberCache.{MemberCache}
use chatroom_server.Storage.{Store}
use chatroom_server.Message.Model.{Message, Status, status_deleted}
use chatroom_server.Message.Store.{has_msg_id, with_status}
use chatroom_server.Message.Store.Paging.{history}
use chatroom_server.Message.Store.History.{read_pages, read_pages-history}
use chatroom_server.Server.Requests.{Parts}
use chatroom_server.Server.Log.Run.{IsNumberedIn, run-IsNumbered, run-Holds}
use chatroom_server.Server.Site.{Decoders, Site, MediaParts}
use chatroom_server.Server.Site.Events.{Arrival, run_site, run_site-run}

module _ {C : MemberCache} {S : Store} (P : Parts) (M : MediaParts) (D : Decoders)
    (arrivals : List Arrival) (s : Site C S) (p : IsNumberedIn P s.world) where
  run_site-IsNumbered : IsNumberedIn P (run_site P M D arrivals s).world
  run_site-IsNumbered =
      let (es, moved) = run_site-run P M D arrivals s in
      subst (IsNumberedIn P) (sym moved) (run-IsNumbered P es s.world p)

  -- Where the messages have distinct positive ids below the next one: a stored message stays stored under
  -- its id through any HTTP requests and ends of connections, with its room, its sender, its time and its
  -- content, whatever statements fail; its status stays too, or becomes that of a deleted message.
  pub run_site-Holds :
      (m : Message)
      → find? (has_msg_id m.id) s.world.session.tables.messages ≡ some m
      → (st : Status) × (((st ≡ m.status) ⊎ (st ≡ status_deleted))
          × (find? (has_msg_id m.id) (run_site P M D arrivals s).world.session.tables.messages
              ≡ some (with_status st m)))
  run_site-Holds m e =
      let (es, moved) = run_site-run P M D arrivals s in
      let (st, (follows, held)) = run-Holds P es s.world m p e in
      (st, (follows, ap (λ w. find? (has_msg_id m.id) w.session.tables.messages) moved ∙ held))

  -- Where the messages have distinct positive ids below the next one, to begin with: after any HTTP requests
  -- and ends of connections, and where no query fails from then on, a client that asks for the pages of a
  -- room, of at least one message each, the first without a cursor and each other with the id of the last
  -- message before it, has read the whole history of the room after as many calls as it has messages, and
  -- one: every message of the room, the newest first.
  pub run_site-read_pages :
      (g limit : ℕ)
      → 0 < limit
      → let x = record (run_site P M D arrivals s).world.session { fails = λ n. false } in
        read_pages g limit (length (history x.tables.messages g) + 1) 0 x
        ≡ history x.tables.messages g
  run_site-read_pages g limit h =
      let x = record (run_site P M D arrivals s).world.session { fails = λ n. false } in
      read_pages-history g limit x h run_site-IsNumbered.distinct run_site-IsNumbered.positive
        (λ n. refl)
