-- ===== src/Message/Recall.antt =====
-- internal/message/recall.go. An instant is a number of nanoseconds; `now.Sub(createTime)` is negative
-- for a message from the future, which the window allows, as it does 0, where the subtraction stops.
pub mod Window
use chatroom_server.Base.{ℕ, ◌-◌, ◌*◌, Bool, true, false, not, ◌||◌, leb, ◌==◌, if◌then◌else◌}
use chatroom_server.Room.Model.{Role, role_owner, role_admin}

abbrev pub second : ℕ
second = 1_000_000_000

abbrev pub recall_window : ℕ
recall_window = 120 * second

-- `CanRecall`
unfoldable pub can_recall : ℕ → ℕ → Role → ℕ → ℕ → Bool
can_recall from_uid actor_uid actor_role create_time now =
    if actor_role == role_owner || actor_role == role_admin
    then true
    else if not (from_uid == actor_uid)
    then false
    else leb (now - create_time) recall_window
