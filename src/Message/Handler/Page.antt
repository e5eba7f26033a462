-- ===== src/Message/Handler/Page.antt =====
-- `page` and `mark` of internal/message/handler.go.
use chatroom_server.Base.{
  zero, suc, filter, ℕ, ◌≤◌, ◌≡◌, Option, none, some, List, [], ◌∷◌, length, take, arith,
}
use chatroom_server.Base.Sort.{sort_by}
use chatroom_server.MemberCache.{MemberCache}
use chatroom_server.World.{World, serve}
use chatroom_server.Http.{messages}
use chatroom_server.Message.Model.{Message}
use chatroom_server.Message.Store as Messages
use chatroom_server.Message.Store.{is_mark, newer, in_page}
use chatroom_server.Message.Handler.{page}
use chatroom_server.Message.Request.{positive_limit, or_zero}

length-take-le {ℓ} : {A : Type ℓ} (n : ℕ) (xs : List A) → length (take n xs) ≤ n
length-take-le zero xs = omega arith
length-take-le (suc n) [] = omega arith
length-take-le (suc n) (x ∷ xs) = omega (arith, length-take-le n xs)

positive_limit-le : (q : Option ℕ) → positive_limit q ≤ 100
positive_limit-le none = omega arith
positive_limit-le (some l) = ground arith

module _ {C : MemberCache} (w : World C) where
  -- Whatever limit is asked for, a page holds at most 100 messages, and reading one changes no table.
  pub page_bounds :
      (path_room query_before query_limit : Option ℕ) (ms : List Message)
      → (serve (page path_room query_before query_limit) w).0.body ≡ messages ms
      → (length ms ≤ 100)
        × ((serve (page path_room query_before query_limit) w).1.session.tables ≡ w.session.tables)
  unfolding page Messages.list_by_room_cursor
  page_bounds none query_before query_limit ms h = cc
  page_bounds (some g) query_before query_limit ms h = ground (
    arith,
    positive_limit-le query_limit,
    length-take-le (positive_limit query_limit)
        (sort_by newer (filter (in_page g (or_zero query_before)) w.session.tables.messages)),
  )
