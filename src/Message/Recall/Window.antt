-- ===== src/Message/Recall/Window.antt =====
-- When a message may be recalled: internal/message/recall.go.
use chatroom_server.Base.{ℕ, ◌≡◌, true, arith}
use chatroom_server.Room.Model.{Role, role_member}
use chatroom_server.Message.Recall.{can_recall}

-- Whoever may recall as a plain member may do so in any role.
pub can_recall_mono :
    (from_uid actor_uid : ℕ) (role : Role) (create_time now : ℕ)
    → can_recall from_uid actor_uid role_member create_time now ≡ true
    → can_recall from_uid actor_uid role create_time now ≡ true
unfolding can_recall
can_recall_mono from_uid actor_uid role create_time now h = ground arith
