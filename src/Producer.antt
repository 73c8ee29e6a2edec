-- ===== src/Producer.antt =====
-- src/cmd/app/producer/main.go: the program that serves the API, from its start to its end.
pub mod Retry
pub mod Startup
pub mod Lifetime
use go_service_bao_fight.Base.{
  ℕ, zero, suc, String, ◌<>◌, Bool, true, false, Option, none, some, List, [], ◌∷◌, if◌then◌else◌,
}
use go_service_bao_fight.Base.Texts.{split_commas}
use go_service_bao_fight.Effects.{GoError}
use go_service_bao_fight.Models.Topics.{Topic, chat_messages}
use go_service_bao_fight.Config.{
  Environment, os_getenv, get_dsn, get_migration_dsn, Migrator, Gorm, run_migrations,
  new_connection,
}
use go_service_bao_fight.Api.{Server, enabled, new_router}
use go_service_bao_fight.Api.Flags.{web_socket}
use go_service_bao_fight.Program.{Program, pure, ◌>>=◌, ◌>>◌, act, ask, mark, check}

-- minio-go: `New` with the endpoint and the two keys, `ListBuckets`, and the calls on one bucket.
-- The error of `BucketExists` is dropped: the answer is then false.
pub record Minio (W : Type 0) : Type 0 where
  pub new : String → String → String → W → Option GoError × W
  pub list_buckets : W → Option GoError × W
  pub bucket_exists : String → W → Bool × W
  pub make_bucket : String → W → Option GoError × W
  pub set_bucket_policy : String → String → W → W

pub record TopicConfig : Type 0 where
  pub topic : Topic
  pub num_partitions : ℕ
  pub replication_factor : ℕ

-- The libraries that `main` calls. `ping` is of go-redis, at an address; `dial` and `create_topics`
-- of kafka-go; `sleep` takes seconds; `await_signal` returns when SIGINT or SIGTERM has come, and
-- `shutdown` is echo's, with its timeout in seconds.
pub record Platform (W : Type 0) : Type 0 where
  pub migrator : Migrator W
  pub gorm : Gorm W
  pub minio : Minio W
  pub ping : String → W → Option GoError × W
  pub dial : String → W → Option GoError × W
  pub create_topics : List TopicConfig → W → Option GoError × W
  pub sleep : ℕ → W → W
  pub await_signal : W → W
  pub shutdown : ℕ → W → Option GoError × W

-- `listening` is the goroutine that calls `e.Start`; `watching` the one of `StartChatWatcher`.
pub data Event : Type 0 where
  migrations : Option GoError → Event
  connection : Option GoError → Event
  attempt : Option GoError → Event
  slept : ℕ → Event
  bucket_made : Option GoError → Event
  policy_set : String → Event
  pinged : Option GoError → Event
  watching : String → Event
  topics_ensured : Option GoError → Event
  listening : Server → String → Event
  signalled : Event
  shut_down : Option GoError → Event
  killed : String → Event

abbrev pub bucket_name : String
bucket_name = "profiles"

-- The `fmt.Sprintf` of the policy that lets everybody read the bucket.
abbrev pub read_policy : String → String
read_policy bucket =
    "{\"Version\":\"2012-10-17\",\"Statement\":[{\"Effect\":\"Allow\",\"Principal\":{\"AWS\":[\"*\"]},\"Action\":[\"s3:GetObject\"],\"Resource\":[\"arn:aws:s3:::"
    <> bucket <> "/*\"]}]}"

abbrev pub topic_configs : List TopicConfig
topic_configs = record { topic = chat_messages; num_partitions = 3; replication_factor = 1 } ∷ []

module _ {W : Type 0} (platform : Platform W) (env : Environment) where
  abbrev after_minio_new : Option GoError × W → Option GoError × W
  after_minio_new (some e, w) = (some e, w)
  after_minio_new (none, w) = platform.minio.list_buckets w

  -- `minio.New`, and the list of buckets if there is a client.
  abbrev pub try_s3 : W → Option GoError × W
  try_s3 w = after_minio_new (
      platform.minio.new (os_getenv env "MINIO_ENDPOINT") (os_getenv env "MINIO_ROOT_USER")
        (os_getenv env "MINIO_ROOT_PASSWORD") w)

  abbrev pub pause : Program W Event (Unit {0})
  pause = act (λ w. (tt, platform.sleep 2 w)) (λ _. slept 2)

  abbrev pub or_retry :
      (Option GoError → Program W Event (Option GoError))
      → Option GoError
      → Program W Event (Option GoError)
  or_retry again none = pure none
  or_retry again (some e) = do pause; again (some e)

  -- The loop, with the rounds that are left and the value of `err`.
  unfoldable pub connect_s3 : ℕ → Option GoError → Program W Event (Option GoError)
  connect_s3 zero err = pure err
  connect_s3 (suc n) err = act try_s3 attempt >>= or_retry (connect_s3 n)

  unfoldable pub migrate : Program W Event (Unit {0})
  migrate = do
    err ← act (run_migrations platform.migrator (get_migration_dsn env)) migrations
    check killed "Failed to run migrations" err

  unfoldable pub open_database : Program W Event (Unit {0})
  open_database = do
    err ← act (new_connection platform.gorm (get_dsn env)) connection
    check killed "Database connection failed" err

  unfoldable pub reach_s3 : Program W Event (Unit {0})
  reach_s3 = do err ← connect_s3 10 none; check killed "Failed to connect to S3 after retries" err

  abbrev pub share_bucket : Program W Event (Unit {0})
  share_bucket =
      act (λ w. (tt, platform.minio.set_bucket_policy bucket_name (read_policy bucket_name) w))
        (λ _. policy_set (read_policy bucket_name))

  unfoldable pub make_bucket : Bool → Program W Event (Unit {0})
  make_bucket true = pure tt
  make_bucket false = do
    err ← act (platform.minio.make_bucket bucket_name) bucket_made
    check killed "Failed to create bucket" err
    share_bucket

  unfoldable pub ensure_bucket : Program W Event (Unit {0})
  unfolding make_bucket
  ensure_bucket = ask (platform.minio.bucket_exists bucket_name) >>= make_bucket

  unfoldable pub reach_redis : Program W Event (Unit {0})
  reach_redis = do
    err ← act (platform.ping (os_getenv env "REDIS_HOST")) pinged
    check killed "Redis not reachable" err

  unfoldable pub start_watcher : List String → Program W Event (Unit {0})
  start_watcher services =
      if enabled services web_socket
      then mark (watching (os_getenv env "KAFKA_BROKER"))
      else pure tt

  abbrev pub after_dial : Option GoError × W → Option GoError × W
  after_dial (some e, w) = (some e, w)
  after_dial (none, w) = platform.create_topics topic_configs w

  -- `EnsureTopics`, which returns nothing: a broker that cannot be dialled is skipped, and an error
  -- of `CreateTopics` is printed.
  unfoldable pub ensure_topics : String → Program W Event (Option GoError)
  ensure_topics broker = act (λ w. after_dial (platform.dial broker w)) topics_ensured

  -- From the start of the server to the end of `main`.
  unfoldable pub serve : Server → Program W Event (Option GoError)
  serve server = do
    mark (listening server ":8080")
    act (λ w. (tt, platform.await_signal w)) (λ _. signalled)
    act (platform.shutdown 10) shut_down

  abbrev pub prepare : Program W Event (Unit {0})
  prepare = do migrate; open_database; reach_s3; ensure_bucket; reach_redis

  -- `main`, with the value of the flag `service`; the result is the error of `Shutdown`, which is
  -- logged.
  unfoldable pub main : String → Program W Event (Option GoError)
  main mode = do
    prepare
    start_watcher (split_commas mode)
    ensure_topics (os_getenv env "KAFKA_BROKER")
    serve (new_router (split_commas mode))
