-- ===== src/Server/Startup.antt =====
-- cmd/server/main.go: what `main` does until it listens, and `buildMux` up to its routes. `Fatalf` ends the
-- process with its message.
pub mod Ready
use chatroom_server.Base.{ℕ, String, Bool, true, false, Option, none, some, if◌then◌else◌}
use chatroom_server.Base.Int.{ℤ, pos, negsuc}
use chatroom_server.Config.{Config, load}
use chatroom_server.Db.Connection.{Pool, Migrations, connect, migrate}
use chatroom_server.Storage.{Minio, new_minio_store}
use chatroom_server.Auth.Token.{Jwt}
use chatroom_server.Auth.Handler.{Bcrypt}
use chatroom_server.Call.Token.{AccessTokenClaims}
use chatroom_server.Ws.Envelope.{Envelope}
use chatroom_server.Server.Requests.{Parts}

-- The functions of the libraries that the handlers use.
pub record Libraries : Type 0 where
  pub encode : Envelope → Option String
  pub sign : AccessTokenClaims → String → Option String
  pub collate : String → String
  pub bcrypt : Bcrypt
  pub jwt : Jwt

-- What the program meets when it starts: the configuration file, yaml.v3 and the environment, the database
-- and its migrations, and MinIO, whose `minio.New` may refuse the endpoint.
pub record System : Type 1 where
  pub file : String → Option String
  pub decode : String → Config → Option Config
  pub env : String → String
  pub pool : Pool
  pub migrations : Migrations
  pub minio : Minio
  pub minio_new : String → String → String → Bool → Bool

-- The lifetime of a token; one that is not positive makes a token that has expired, as 0 does.
abbrev pub lifetime : ℤ → ℕ
lifetime (pos n) = n
lifetime (negsuc n) = 0

-- The settings that `buildMux` hands to the handlers.
abbrev pub parts_of : Libraries → Config → Parts
parts_of L cfg = record {
  encode = L.encode;
  sign = L.sign;
  collate = L.collate;
  bcrypt = L.bcrypt;
  jwt = L.jwt;
  secret = cfg.jwt_secret;
  ttl = lifetime cfg.jwt_ttl;
  calls = record {
    api_key = cfg.livekit_api_key;
    api_secret = cfg.livekit_api_secret;
    public_url = cfg.livekit_public_url;
  };
}

module _ (Y : System) (L : Libraries) where
  -- What the start leaves behind it: the schema and the objects.
  abbrev pub Outside : Type 0
  Outside = Y.migrations.State × Y.minio.State

  -- The end of the process, or a server that listens: its address, the pool of connections, the handlers'
  -- parts, and the bucket of the files.
  pub data Start : Type 0 where
    fatal : String → Start
    listening : String → Y.pool.Handle → Parts → String → Start

  abbrev pub with_bucket : Config → Y.pool.Handle → Option String → Start
  with_bucket cfg db none = fatal "connect minio"
  with_bucket cfg db (some bucket) = listening cfg.http_addr db (parts_of L cfg) bucket

  -- `NewMinioStore`, from `minio.New` on.
  abbrev pub open_files : Config → Y.minio.State → Option String × Y.minio.State
  open_files cfg s =
      if Y.minio_new cfg.minio_endpoint cfg.minio_access_key cfg.minio_secret_key cfg.minio_use_ssl
      then new_minio_store Y.minio cfg.minio_bucket s
      else (none, s)

  abbrev pub with_schema : Config → Y.pool.Handle → Bool → Outside → Start × Outside
  with_schema cfg db false (m, s) = (fatal "migrate", (m, s))
  with_schema cfg db true (m, s) = let (b, s') = open_files cfg s in (with_bucket cfg db b, (m, s'))

  abbrev pub with_database : Config → Option Y.pool.Handle → Outside → Start × Outside
  with_database cfg none o = (fatal "connect mysql", o)
  with_database cfg (some db) (m, s) =
      let (done, m') = migrate Y.migrations cfg.mysql_dsn m in with_schema cfg db done (m', s)

  -- `buildMux`, up to the routes
  unfoldable pub build_mux : Config → Outside → Start × Outside
  build_mux cfg o = with_database cfg (connect Y.pool cfg.mysql_dsn) o

  abbrev pub with_config : Option Config → Outside → Start × Outside
  with_config none o = (fatal "load config", o)
  with_config (some cfg) o = build_mux cfg o

  -- `main`, up to `ListenAndServe`
  unfoldable pub start : Outside → Start × Outside
  start o = with_config (load Y.file Y.decode Y.env "config.yaml") o
