-- ===== src/Consumer.antt =====
-- src/cmd/app/consumer/main.go: the workers that the consumer starts, by the services it is
-- started with, and the program from its start to its end.
pub mod Launches
pub mod Fleet
use go_service_bao_fight.Base.{
  ℕ, zero, suc, String, Option, List, [], ◌∷◌, ◌++◌, str_eq, if◌then◌else◌,
}
use go_service_bao_fight.Base.Texts.{split_commas}
use go_service_bao_fight.Effects.{GoError}
use go_service_bao_fight.Config.{
  Environment, os_getenv, get_dsn, get_migration_dsn, Migrator, Gorm, run_migrations,
  new_connection,
}
use go_service_bao_fight.Program.{Program, pure, ◌>>=◌, ◌>>◌, act, mark, check}
use go_service_bao_fight.Models.Topics.{Topic, user_register, chat_messages, action_like_profile}
use go_service_bao_fight.Api.{enabled}
use go_service_bao_fight.Api.Flags

pub data Task : Type 0 where
  save_users : Task
  save_messages : Task
  handle_reactions : Task

-- A call of `start`: the consumer group, the topic, the handler and the number of goroutines.
pub record Start : Type 0 where
  pub name : String
  pub topic : Topic
  pub handler : Task
  pub routines : ℕ

-- `worker.Config` of every worker: messages, and seconds.
abbrev pub batch_size : ℕ
batch_size = 50

abbrev pub interval : ℕ
interval = 2

abbrev pub user_saver : Start
user_saver = record {
  name = "user-saver";
  topic = user_register;
  handler = save_users;
  routines = 2;
}

abbrev pub message_saver : Start
message_saver = record {
  name = "message-saver-v2";
  topic = chat_messages;
  handler = save_messages;
  routines = 3;
}

abbrev pub reaction_processor : Start
reaction_processor = record {
  name = "reaction-processor";
  topic = action_like_profile;
  handler = handle_reactions;
  routines = 2;
}

-- The workers of the chosen services, in the order of the code.
unfoldable pub workers : List String → List Start
workers services =
    (if enabled services Flags.user_register then user_saver ∷ [] else [])
    ++ (if enabled services Flags.send_message then message_saver ∷ [] else [])
    ++ (if enabled services Flags.reaction_worker then reaction_processor ∷ [] else [])

-- A goroutine of the closure `start`: a `kafkaWorker` with its broker and its number, which runs
-- with `batch_size` and `interval`.
pub record Launch : Type 0 where
  pub start : Start
  pub broker : String
  pub id : ℕ

pub data Event : Type 0 where
  migrations : Option GoError → Event
  connection : Option GoError → Event
  launched : Launch → Event
  pinged : Option GoError → Event
  signalled : Event
  waited : Event
  killed : String → Event

-- The libraries that `main` calls: `ping` is of go-redis, at an address, `await_signal` returns when
-- SIGINT or SIGTERM has come, and `wait` when every worker has returned.
pub record Platform (W : Type 0) : Type 0 where
  pub migrator : Migrator W
  pub gorm : Gorm W
  pub ping : String → W → Option GoError × W
  pub await_signal : W → W
  pub wait : W → W

-- `broker := os.Getenv("KAFKA_BROKER")`, with its default.
abbrev pub kafka_broker : Environment → String
kafka_broker env =
    let broker = os_getenv env "KAFKA_BROKER" in
    if str_eq broker "" then "localhost:9092" else broker

module _ {W : Type 0} where
  -- The loop of `start`, with the goroutines that are left and the number of the next one.
  unfoldable pub start_from : Start → String → ℕ → ℕ → Program W Event (Unit {0})
  start_from s broker zero i = pure tt
  start_from s broker (suc n) i =
      mark (launched (record { start = s; broker = broker; id = i }))
      >> start_from s broker n (suc i)

  unfoldable pub start : Start → String → Program W Event (Unit {0})
  start s broker = start_from s broker s.routines 0

module _ {W : Type 0} (platform : Platform W) (env : Environment) where
  unfoldable pub migrate : Program W Event (Unit {0})
  migrate = do
    err ← act (run_migrations platform.migrator (get_migration_dsn env)) migrations
    check killed "Failed to run migrations" err

  unfoldable pub open_database : Program W Event (Unit {0})
  open_database = do
    err ← act (new_connection platform.gorm (get_dsn env)) connection
    check killed "Database connection failed" err

  unfoldable pub start_users : List String → Program W Event (Unit {0})
  start_users services =
      if enabled services Flags.user_register then start user_saver (kafka_broker env) else pure tt

  unfoldable pub start_messages : List String → Program W Event (Unit {0})
  start_messages services =
      if enabled services Flags.send_message
      then start message_saver (kafka_broker env)
      else pure tt

  -- Redis is asked only for the reactions, when the other workers are already running.
  unfoldable pub start_reactions : List String → Program W Event (Unit {0})
  start_reactions services =
      if enabled services Flags.reaction_worker
      then (do
        err ← act (platform.ping (os_getenv env "REDIS_HOST")) pinged
        check killed "Redis not reachable" err
        start reaction_processor (kafka_broker env))
      else pure tt

  unfoldable pub stop : Program W Event (Unit {0})
  stop = do
    act (λ w. (tt, platform.await_signal w)) (λ _. signalled)
    act (λ w. (tt, platform.wait w)) (λ _. waited)

  -- `main`, with the value of the flag `service`.
  unfoldable pub main : String → Program W Event (Unit {0})
  main mode = do
    migrate
    open_database
    start_users (split_commas mode)
    start_messages (split_commas mode)
    start_reactions (split_commas mode)
    stop
