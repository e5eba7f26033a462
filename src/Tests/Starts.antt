-- ===== src/Tests/Starts.antt =====
-- Starts of the server on a machine with an old schema and without a bucket.
use chatroom_server.Base.{
  ℕ, ◌≡◌, refl, String, true, false, none, some, [], ◌∷◌, ◌==◌, if◌then◌else◌,
}
use chatroom_server.Config.{apply_env_overrides, load}
use chatroom_server.Text.Atoi.{atoi}
use chatroom_server.Storage.{new_minio_store}
use chatroom_server.Db.Connection.{Pool, Migrations, no_change, connect, migrate}
use chatroom_server.Server.Startup.{Libraries, System, Outside, fatal, build_mux, start}
use chatroom_server.Server.Shutdown.{
  draining, finished, begins, ends, upgrades, signal, polls, step, run_process, listening_process,
}
use chatroom_server.Tests.Data.{encode}
use chatroom_server.Tests.Accounts.{bcrypt, collate, jwt}
use chatroom_server.Tests.Files.{memory_minio}
use text.Mathlib.Text.{◌==◌ as str_eq}

program : Unit {0}
unfolding start build_mux connect migrate load apply_env_overrides atoi new_minio_store
program = tt

-- A pool is its three limits, and the database of one name is up.
abbrev limits : Pool
limits = record {
  Handle = ℕ × (ℕ × ℕ);
  connect = λ driver dsn. if str_eq dsn "down" then none else some (0, (0, 0));
  set_max_open_conns = λ n p. (n, p.1);
  set_max_idle_conns = λ n p. (p.0, (n, p.1.1));
  set_conn_max_lifetime = λ n p. (p.0, (p.1.0, n));
}

-- Two migrations; the database is at a version.
abbrev two_files : Migrations
two_files = record {
  Source = String;
  Instance = String;
  State = ℕ;
  source = λ name. some name;
  new_instance = λ driver source url version. (some url, version);
  up = λ url version. (if version == 2 then some no_change else none, 2);
  close = λ url version. version;
  version = λ version. version;
}

abbrev machine : String → System
machine dsn = record {
  file = λ path. none;
  decode = λ text cfg. none;
  env = λ name. if str_eq name "CHATROOM_MYSQL_DSN" then dsn else "";
  pool = limits;
  migrations = two_files;
  minio = memory_minio;
  minio_new = λ endpoint key secret ssl. true;
}

abbrev libraries : Libraries
libraries = record {
  encode = encode;
  sign = λ c secret. none;
  collate = collate;
  bcrypt = bcrypt;
  jwt = jwt;
}

abbrev fresh : Outside (machine "up") libraries
fresh = (1, ((λ bucket. false), λ bucket key. none))

newest_schema : (start (machine "up") libraries fresh).1.0 ≡ 2
unfolding program
newest_schema = refl

no_mysql : (start (machine "down") libraries fresh).0 ≡ fatal "connect mysql"
unfolding program
no_mysql = refl

-- A web socket does not keep the process alive.
socket_cut :
    (run_process (begins ∷ upgrades ∷ signal ∷ polls ∷ []) listening_process).phase ≡ finished
unfolding step run_process
socket_cut = refl

socket_open : (run_process (begins ∷ upgrades ∷ signal ∷ polls ∷ []) listening_process).sockets ≡ 1
unfolding step run_process
socket_open = refl

-- A request does, until it ends.
request_waits :
    (run_process (begins ∷ signal ∷ polls ∷ begins ∷ ends ∷ []) listening_process).phase ≡ draining
unfolding step run_process
request_waits = refl
