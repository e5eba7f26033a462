-- ===== src/Media/Handler/Downloads.antt =====
-- What a download answers, also after an upload: internal/media/handler.go.
use chatroom_server.Base.{ℕ, ◌≡◌, String, some, arith, Option-cases, inl, inr}
use chatroom_server.Action.{Result}
use chatroom_server.Http.{Response, file_body}
use chatroom_server.Auth.Token.{Jwt, parse_token}
use chatroom_server.Storage.{Object, Store, IsStore}
use chatroom_server.World.{response_of}
use chatroom_server.Media.Handler.{download}
use chatroom_server.Media.Handler.Files.{status_of}

module _ (S : Store) (lawful : IsStore S) (jwt : Jwt) (secret token : String) (now : ℕ) where
  module _ (id : String) (s : S.State) where
    abbrev pub sent : Result Response Response × S.State
    sent = download S jwt secret token now id s

    -- Over a store that keeps the laws of a store: a download that answers with status 200 had a valid
    -- token, and sends the bytes and the type that the store has under the id.
    pub download-held :
        status_of sent ≡ 200
        → (uid : ℕ) × ((o : Object) × ((parse_token jwt token secret now ≡ some uid)
              × ((S.held s id ≡ some o)
                  × ((response_of sent.0).body ≡ file_body o.content_type o.content))))
    unfolding download
    download-held h = elim (Option-cases (parse_token jwt token secret now)) [
      | inl e ↦ absurd (ground (arith, e))
      | inr (uid, e) ↦ elim (Option-cases (S.get s id).0) [
        | inl missing ↦ absurd (ground (arith, e, missing))
        | inr (o, found) ↦ (uid, (o, (e, (lawful.get-held s id o found, ground (arith, e, found)))))
      ]
    ]
