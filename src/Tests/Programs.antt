-- ===== src/Tests/Programs.antt =====
-- The programs and their settings (src/cmd/app, src/internal/config, src/internal/database) with a
-- storage that answers at the third attempt.
use go_service_bao_fight.Base.{
  ℕ, zero, suc, ◌≡◌, refl, ◌⊎◌, ◌<>◌, true, Option, none, some, [], arith, str_eq, if◌then◌else◌,
}
use go_service_bao_fight.Base.Int.{pos}
use go_service_bao_fight.Base.Int.Decimal.{print_int}
use go_service_bao_fight.Effects.{GoError}
use go_service_bao_fight.Config.{
  Environment, get_env, new_config, get_dsn, get_migration_dsn, Migrator, applied, Gorm,
}
use go_service_bao_fight.Config.Port.{port_kept}
use go_service_bao_fight.Program.{Outcome}
use go_service_bao_fight.Producer
use go_service_bao_fight.Producer.Startup.{IsDead}
use go_service_bao_fight.Producer.Lifetime.{Finished, main-Finished}
use go_service_bao_fight.Producer.Retry.{HasConnected, HasGivenUp, connect_s3-ends}
use go_service_bao_fight.Base.Texts.{split_commas}

abbrev env : Environment
env key = if str_eq key "DB_CONFIG_PORT" then some "5432" else none

printed : print_int (pos 5432) ≡ "5432"
unfolding print_int
printed = refl

found : env "DB_CONFIG_PORT" ≡ some "5432"
unfolding str_eq
found = refl

port_kept_example :
    ((new_config env).port ≡ pos 5432)
    × (get_dsn env
        ≡ "host="
          <> get_env env "DB_CONFIG_HOST" "localhost"
          <> " user="
          <> get_env env "DB_CONFIG_USER" "root"
          <> " password="
          <> get_env env "DB_CONFIG_PASSWORD" "root"
          <> " dbname="
          <> get_env env "DB_CONFIG_DBNAME" ""
          <> " port="
          <> "5432"
          <> " sslmode=disable")
    × (get_migration_dsn env
        ≡ "postgres://"
          <> get_env env "DB_CONFIG_USER" "root"
          <> ":"
          <> get_env env "DB_CONFIG_PASSWORD" "root"
          <> "@"
          <> get_env env "DB_CONFIG_HOST" "localhost"
          <> ":"
          <> "5432"
          <> "/"
          <> get_env env "DB_CONFIG_DBNAME" ""
          <> "?sslmode=disable")
port_kept_example = port_kept env (pos 5432) "5432" (omega arith) printed found

abbrev migrator : Migrator ℕ
migrator = record { new = λ dir dsn n. (none, n); up = λ n. (applied, n) }

abbrev gorm : Gorm ℕ
gorm = record { open_db = λ dsn n. (none, n); pool = λ n. (none, n); set_pool = λ i o t n. n }

-- The world counts the attempts.
abbrev third : ℕ → Option GoError × ℕ
third zero = (some "refused", 1)
third (suc zero) = (some "refused", 2)
third (suc (suc n)) = (none, suc (suc (suc n)))

abbrev producer : Producer.Platform ℕ
producer = record {
  migrator = migrator;
  gorm = gorm;
  minio = record {
    new = λ endpoint access secret n. (none, n);
    list_buckets = third;
    bucket_exists = λ b n. (true, n);
    make_bucket = λ b n. (none, n);
    set_bucket_policy = λ b p n. n;
  };
  ping = λ address n. (none, n);
  dial = λ broker n. (some "no broker", n);
  create_topics = λ ts n. (none, n);
  sleep = λ t n. n;
  await_signal = λ n. n;
  shutdown = λ t n. (none, n);
}

connect_s3-ends_example :
    HasConnected 10 []
      (Producer.connect_s3 producer env 10 none (record { world = 0; events = [] }))
    ⊎ HasGivenUp 10 []
        (Producer.connect_s3 producer env 10 none (record { world = 0; events = [] }))
connect_s3-ends_example = connect_s3-ends producer env 0

main-Finished_example :
    Outcome IsDead
      (Finished (split_commas "web_socket,send_message") "")
      (Producer.main producer env "web_socket,send_message" (record { world = 0; events = [] }))
unfolding str_eq
main-Finished_example = main-Finished producer env "web_socket,send_message" 0
