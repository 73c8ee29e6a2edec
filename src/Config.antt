-- ===== src/Config.antt =====
-- src/internal/config (config.go, config_helper.go, database/config.go): the settings that the
-- programs read from the environment of the process, and src/internal/database: the texts that
-- name the database, the migrations and the connection.
pub mod Port
use go_service_bao_fight.Base.{
  ℕ, String, ◌<>◌, Bool, true, false, Option, none, some, if◌then◌else◌,
}
use go_service_bao_fight.Base.Int.{ℤ, pos, parse_int, if_exact}
use go_service_bao_fight.Base.Int.Decimal.{print_int}
use go_service_bao_fight.Effects.{GoError}
use go_service_bao_fight.Models.{hour}

-- `os.LookupEnv`: the value of a variable, or none if it is not set.
abbrev pub Environment : Type 0
Environment = String → Option String

abbrev pub or_default : {A : Type 0} → Option A → A → A
or_default none d = d
or_default (some a) d = a

-- `os.Getenv`
abbrev pub os_getenv : Environment → String → String
os_getenv env key = or_default (env key) ""

unfoldable pub get_env : Environment → String → String → String
get_env env key default = or_default (env key) default

unfoldable pub get_env_as_int : Environment → String → ℤ → ℤ
unfolding get_env
get_env_as_int env name default = or_default (if_exact (parse_int (get_env env name ""))) default

-- `database.Config`
pub record Config : Type 0 where
  pub user : String
  pub password : String
  pub host : String
  pub port : ℤ
  pub db_name : String

-- The field `Database` of what `NewConfig` returns.
unfoldable pub new_config : Environment → Config
new_config env = record {
  user = get_env env "DB_CONFIG_USER" "root";
  password = get_env env "DB_CONFIG_PASSWORD" "root";
  host = get_env env "DB_CONFIG_HOST" "localhost";
  port = get_env_as_int env "DB_CONFIG_PORT" (pos 3306);
  db_name = get_env env "DB_CONFIG_DBNAME" "";
}

-- The two `fmt.Sprintf`.
abbrev pub dsn_text : Config → String
dsn_text c =
    "host="
    <> c.host
    <> " user="
    <> c.user
    <> " password="
    <> c.password
    <> " dbname="
    <> c.db_name
    <> " port="
    <> print_int c.port
    <> " sslmode=disable"

abbrev pub migration_text : Config → String
migration_text c =
    "postgres://"
    <> c.user
    <> ":"
    <> c.password
    <> "@"
    <> c.host
    <> ":"
    <> print_int c.port
    <> "/"
    <> c.db_name
    <> "?sslmode=disable"

unfoldable pub get_dsn : Environment → String
get_dsn env = dsn_text (new_config env)

unfoldable pub get_migration_dsn : Environment → String
get_migration_dsn env = migration_text (new_config env)

-- What `Up` of golang-migrate returns: nil, an error that is `ErrNoChange`, or another one.
pub data Up : Type 0 where
  applied : Up
  no_change : Up
  refused : GoError → Up

-- golang-migrate, at the directory `file://migrations` and a database: `new` opens them.
pub record Migrator (W : Type 0) : Type 0 where
  pub new : String → String → W → Option GoError × W
  pub up : W → Up × W

-- gorm's `Open` and `DB`, and the three settings of the pool: idle and open connections, and the
-- seconds that one lives.
pub record Gorm (W : Type 0) : Type 0 where
  pub open_db : String → W → Option GoError × W
  pub pool : W → Option GoError × W
  pub set_pool : ℕ → ℕ → ℕ → W → W

module _ {W : Type 0} where
  abbrev up_result : Up × W → Option GoError × W
  up_result (applied, w) = (none, w)
  up_result (no_change, w) = (none, w)
  up_result (refused e, w) = (some ("could not run up migrations: " <> e), w)

  abbrev after_new : Migrator W → Option GoError × W → Option GoError × W
  after_new m (some e, w) = (some ("could not create migrate instance: " <> e), w)
  after_new m (none, w) = up_result (m.up w)

  unfoldable pub run_migrations : Migrator W → String → W → Option GoError × W
  run_migrations m dsn w = after_new m (m.new "file://migrations" dsn w)

  abbrev after_pool : Gorm W → Option GoError × W → Option GoError × W
  after_pool g (some e, w) = (some e, w)
  after_pool g (none, w) = (none, g.set_pool 10 100 hour w)

  abbrev after_open : Gorm W → Option GoError × W → Option GoError × W
  after_open g (some e, w) = (some e, w)
  after_open g (none, w) = after_pool g (g.pool w)

  unfoldable pub new_connection : Gorm W → String → W → Option GoError × W
  new_connection g dsn w = after_open g (g.open_db dsn w)
