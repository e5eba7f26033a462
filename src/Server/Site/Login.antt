-- ===== src/Server/Site/Login.antt =====
-- A login, and the requests with its token.
use chatroom_server.Base.{◌≡◌, ◌+◌, ◌<◌, ◌/◌, refl, sym, ap, ◌∙◌, String, some, [], ◌∷◌}
use chatroom_server.MemberCache.{MemberCache}
use chatroom_server.Message.Recall.{second}
use chatroom_server.Http.{login_token}
use chatroom_server.Storage.{Store}
use chatroom_server.Auth.Model.{User}
use chatroom_server.Auth.Token.{IsJwt, bearer, middleware_at}
use chatroom_server.Auth.Token.Bearer.{middleware_at-generate_token}
use chatroom_server.Auth.Handler.{LoginRequest}
use chatroom_server.Auth.Handler.Login.{LogsIn, handle_login-token}
use chatroom_server.Server.Requests.{Parts}
use chatroom_server.Server.Mux.{found, find_handler}
use chatroom_server.Server.Routes.{Entrance, outer_mux}
use chatroom_server.Server.Routes.Endpoints.{Endpoint, method_of, path_of}
use chatroom_server.Server.Routes.Reach.{InRange}
use chatroom_server.Server.Site.{
  HttpRequest, Moment, Decoders, Site, MediaParts, serve_site, handle_task, serve_found, at_moment,
  serve_http,
}
use chatroom_server.Server.Site.Api.{task_of, serve_http-endpoint}
use Prim.Native.String.{◌++◌}

-- The request that logs in.
abbrev pub IsLogin : HttpRequest → Type 0
IsLogin r = (r.method ≡ "POST") × (r.path ≡ "api" ∷ "auth" ∷ "login" ∷ [])

outer_mux-login :
    find_handler "POST" ("api" ∷ "auth" ∷ "login" ∷ []) outer_mux ≡ found Entrance.login []
unfolding find_handler
outer_mux-login = refl

module _ {C : MemberCache} {S : Store} (P : Parts) (M : MediaParts) (D : Decoders) where
  -- With a token service that takes its own tokens until they expire: where a login is answered with a
  -- token, a user has the name and the password of the login's body, and until the token expires every
  -- request of the API, with the token as its bearer's and with ids in the range of int64, is served by
  -- its handler as that user's.
  pub serve_http-logged_in :
      (entry r : HttpRequest) (m0 m : Moment) (s0 s : Site C S) (e : Endpoint) (t : String)
      → IsJwt P.jwt
      → IsLogin entry
      → (serve_http P M D entry m0 s0).0.body ≡ login_token t
      → InRange e
      → r.method ≡ method_of e
      → r.path ≡ path_of e
      → r.authorization ≡ bearer ++ t
      → m.now / second < (m0.now + P.ttl) / second
      → (req : LoginRequest) × ((u : User) × ((D.login entry.body ≡ some req)
            × (LogsIn P.collate P.bcrypt (at_moment m0 s0).world req u
                × (serve_http P M D r m s
                    ≡ serve_site (handle_task P M m (task_of D e r) u.id) (at_moment m s)))))
  unfolding serve_http
  serve_http-logged_in entry r m0 m s0 s e t lawful (post, path) answered h same_method same_path
        header valid =
      let w0 = (at_moment m0 s0).world in
      let logged : find_handler entry.method entry.path outer_mux ≡ found Entrance.login [] =
        rw (post, path) outer_mux-login in
      let replied =
        sym (ap (λ o. (serve_site (serve_found P M D o entry m0) (at_moment m0 s0)).0.body) logged)
        ∙ answered in
      let (req, (u, (decoded, (logs_in, signed)))) =
        handle_login-token P.collate P.bcrypt w0 P.jwt P.secret P.ttl (D.login entry.body) t
          replied in
      let next = handle_task P M m (task_of D e r) in
      let passes =
        middleware_at-generate_token P.jwt P.secret next (at_moment m s) m.now u.id P.ttl m0.now t
          lawful signed valid in
      (
        req,
        (
          u,
          (
            decoded,
            (
              logs_in,
              serve_http-endpoint P M D e r m s h same_method same_path
                  ∙ ap (λ x. serve_site (middleware_at P.jwt P.secret m.now next x) (at_moment m s))
                      header
                  ∙ ap (λ x. serve_site (λ y. x) (at_moment m s)) passes,
            ),
          ),
        ),
      )
