-- ===== src/Config/Port.antt =====
-- The port of the database in the two texts that name it (src/internal/database).
use go_service_bao_fight.Base.{String, ◌<>◌, ◌≡◌, refl, some}
use go_service_bao_fight.Base.Int.{ℤ, pos}
use go_service_bao_fight.Base.Int.Decimal.{print_int, IsInt, parse_int-print_int}
use go_service_bao_fight.Config.{
  Environment, get_env, get_env_as_int, new_config, get_dsn, get_migration_dsn,
}

get_env_as_int-print_int :
    (env : Environment) (name : String) (d z : ℤ)
    → IsInt z
    → env name ≡ some (print_int z)
    → get_env_as_int env name d ≡ z
unfolding get_env_as_int get_env
get_env_as_int-print_int env name d z h e = rw e (rw (parse_int-print_int z h) refl)

-- If `DB_CONFIG_PORT` is the decimal text of an int, then that int is the port of the configuration,
-- and both the text for the connection and the URL for the migrations carry the very text of the
-- variable.
pub port_kept :
    (env : Environment) (z : ℤ) (text : String)
    → IsInt z
    → print_int z ≡ text
    → env "DB_CONFIG_PORT" ≡ some text
    → ((new_config env).port ≡ z)
      × (get_dsn env
          ≡ "host="
            <> get_env env "DB_CONFIG_HOST" "localhost"
            <> " user="
            <> get_env env "DB_CONFIG_USER" "root"
            <> " password="
            <> get_env env "DB_CONFIG_PASSWORD" "root"
            <> " dbname="
            <> get_env env "DB_CONFIG_DBNAME" ""
            <> " port="
            <> text
            <> " sslmode=disable")
      × (get_migration_dsn env
          ≡ "postgres://"
            <> get_env env "DB_CONFIG_USER" "root"
            <> ":"
            <> get_env env "DB_CONFIG_PASSWORD" "root"
            <> "@"
            <> get_env env "DB_CONFIG_HOST" "localhost"
            <> ":"
            <> text
            <> "/"
            <> get_env env "DB_CONFIG_DBNAME" ""
            <> "?sslmode=disable")
unfolding new_config get_dsn get_migration_dsn
port_kept env z text h t e =
    let p = get_env_as_int-print_int env "DB_CONFIG_PORT" (pos 3306) z h (rw t e) in
    (p, rw p (rw t refl), rw p (rw t refl))
