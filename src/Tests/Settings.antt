-- ===== src/Tests/Settings.antt =====
-- Configurations from the environment and from a file.
use chatroom_server.Base.{◌*◌, ◌≡◌, refl, String, Option, none, some, if◌then◌else◌, arith}
use chatroom_server.Base.Int.{pos, negsuc}
use chatroom_server.Text.Decimal.{format_int}
use chatroom_server.Text.Atoi.{atoi}
use chatroom_server.Config.{Config, defaults, second, seconds, apply_env_overrides, load}
use chatroom_server.Config.Overrides.{load-jwt_ttl}
use text.Mathlib.Text.{◌==◌}

program : Unit {0}
unfolding format_int atoi apply_env_overrides load
program = tt

abbrev no_file : String → Option String
no_file path = none

abbrev decode : String → Config → Option Config
decode d cfg = if d == "bad" then none else some (record cfg { http_addr = ":9090" })

abbrev hour_env : String → String
hour_env v = if v == "CHATROOM_JWT_TTL_SECONDS" then "3600" else ""

abbrev hour_config : Config
hour_config = record defaults { jwt_ttl = pos (3600 * second) }

load-jwt_ttl_example : hour_config.jwt_ttl ≡ pos (3600 * second)
unfolding program
load-jwt_ttl_example =
    load-jwt_ttl no_file decode hour_env "config.yaml" hour_config 3600 refl refl (omega arith)

-- A lifetime of a little more than 292 years is negative.
too_long : seconds (pos 9_223_372_037) ≡ negsuc 9_223_372_036_709_551_615
too_long = refl

not_a_number : atoi "1h" ≡ none
unfolding program
not_a_number = refl
