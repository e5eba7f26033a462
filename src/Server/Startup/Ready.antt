-- ===== src/Server/Startup/Ready.antt =====
-- What holds when the server listens.
use chatroom_server.Base.{ℕ, ◌≡◌, ◌⊎◌, String, true, false, none, some}
use chatroom_server.Config.{Config, load}
use chatroom_server.Db.Connection.{IsMigrations, connect, migrate}
use chatroom_server.Storage.Bucket.{IsMinio}
use chatroom_server.Server.Requests.{Parts}
use chatroom_server.Server.Startup.{
  Libraries, System, parts_of, Outside, Start, fatal, listening, open_files,
}

module _ (Y : System) (L : Libraries) (newest : ℕ) where
  -- Everything that the handlers rely on is there.
  pub record IsReady (o : Outside Y L) (addr : String) (P : Parts) (bucket : String) : Type 0 where
    pub cfg : Config
    pub loaded : load Y.file Y.decode Y.env "config.yaml" ≡ some cfg
    pub address : addr ≡ cfg.http_addr
    pub parts : P ≡ parts_of L cfg
    pub schema : Y.migrations.version o.0 ≡ newest
    pub name : bucket ≡ cfg.minio_bucket
    pub files : Y.minio.has_bucket o.1 bucket ≡ true

module _ (Y : System) (L : Libraries) (o : Outside Y L) where
  -- The step that failed, after the ones before it succeeded, and its message.
  pub data Failure : String → Type 1 where
    no_config : load Y.file Y.decode Y.env "config.yaml" ≡ none → Failure "load config"
    no_database :
        (cfg : Config)
        → load Y.file Y.decode Y.env "config.yaml" ≡ some cfg
        → connect Y.pool cfg.mysql_dsn ≡ none
        → Failure "connect mysql"
    no_schema :
        (cfg : Config)
        → load Y.file Y.decode Y.env "config.yaml" ≡ some cfg
        → (db : Y.pool.Handle) → connect Y.pool cfg.mysql_dsn ≡ some db
        → (migrate Y.migrations cfg.mysql_dsn o.0).0 ≡ false
        → Failure "migrate"
    no_files :
        (cfg : Config)
        → load Y.file Y.decode Y.env "config.yaml" ≡ some cfg
        → (db : Y.pool.Handle) → connect Y.pool cfg.mysql_dsn ≡ some db
        → (migrate Y.migrations cfg.mysql_dsn o.0).0 ≡ true
        → (open_files Y L cfg o.1).0 ≡ none
        → Failure "connect minio"

module _ (Y : System) (L : Libraries) (newest : ℕ) (migrations : IsMigrations Y.migrations newest)
    (minio : IsMinio Y.minio) where
  -- How a start may go.
  abbrev Goes : Outside Y L → Start Y L × Outside Y L → Type 1
  Goes o (r, o') =
      ((msg : String) × ((r ≡ fatal msg) × Failure Y L o msg))
      ⊎ ((addr : String) × ((db : Y.pool.Handle) × ((P : Parts) × ((bucket : String) × ((r
                    ≡ listening addr db P bucket)
                  × IsReady Y L newest o' addr P bucket)))))
