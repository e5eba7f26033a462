-- ===== src/Message/Store/Marks.antt =====
-- `AddMark` of internal/message/store.go.
use chatroom_server.Base.{ℕ, ◌≡◌, true, ◌&&◌, ◌||◌, List, ◌==◌, any, ==_iff, arith}
use chatroom_server.Action.{ok}
use chatroom_server.Db.{Session}
use chatroom_server.Message.Model.{Mark}
use chatroom_server.Message.Store.{is_mark, add_mark}

mark-same :
    (m u k n v j : ℕ) (ks : List Mark)
    → (m == n && (u == v && k == j)) ≡ true
    → any (is_mark n v j) ks ≡ any (is_mark m u k) ks
mark-same m u k n v j ks e =
    rw ((==_iff m n).0 (ground arith), (==_iff u v).0 (ground arith), (==_iff k j).0 (ground arith))

-- A mark that is stored is there, no other mark is, and storing it again changes no mark.
pub add_mark-marks :
    (m u k n v j : ℕ) (s : Session)
    → (add_mark m u k s).0 ≡ ok tt
    → let s1 = (add_mark m u k s).1 in
      (any (is_mark n v j) s1.tables.marks
        ≡ (any (is_mark n v j) s.tables.marks || (m == n && (u == v && k == j))))
      × ((add_mark m u k s1).1.tables.marks ≡ s1.tables.marks)
unfolding add_mark
add_mark-marks m u k n v j s h =
    (ground (arith, mark-same m u k n v j s.tables.marks), ground arith)
