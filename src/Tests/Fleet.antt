-- ===== src/Tests/Fleet.antt =====
-- The consumer (src/cmd/app/consumer/main.go) whose Redis does not answer, and two of its workers.
use go_service_bao_fight.Base.{
  str_eq, ℕ, suc, ◌≡◌, refl, String, none, some, List, [], ◌∷◌, ◌++◌, map, All,
}
use go_service_bao_fight.Api.{enabled, has_service}
use go_service_bao_fight.Base.Texts.{split_commas}
use go_service_bao_fight.Config.{Environment, applied}
use go_service_bao_fight.Program.{Outcome}
use go_service_bao_fight.Worker.Loop.{returned, cancelled, select, flush, step, start, Handler}
use go_service_bao_fight.Worker.Loop.Conservation.{handed}
use go_service_bao_fight.Worker.System.{cancel, System, fetch, holding, initial, in_flight}
use go_service_bao_fight.Consumer.{
  Task, batch_size, workers, Launch, Platform, kafka_broker, main, user_saver,
}
use go_service_bao_fight.Consumer.Launches.{goroutines, IsKilled, IsDone, main-IsDone}
use go_service_bao_fight.Consumer.Fleet.{
  Member, Fleet, seeing, move, elsewhere, begin, Sails, moored, onward,
}
use go_service_bao_fight.Consumer.Fleet.Accounts.{fleet-Accounts, fleet_shutdown}

abbrev env : Environment
env key = none

abbrev consumer : Platform ℕ
consumer = record {
  migrator = record { new = λ dir dsn n. (none, n); up = λ n. (applied, n) };
  gorm = record { open_db = λ dsn n. (none, n); pool = λ n. (none, n); set_pool = λ i o t n. n };
  ping = λ address n. (some "refused", n);
  await_signal = λ n. n;
  wait = λ n. n;
}

main-IsDone_example :
    Outcome
      (IsKilled (split_commas "all") (kafka_broker env))
      (λ _. IsDone (split_commas "all") (kafka_broker env))
      (main consumer env "all" (record { world = 0; events = [] }))
main-IsDone_example = main-IsDone consumer env "all" 0

abbrev counting : Task → Handler ℕ String
counting t bs n = (none, suc n)

abbrev services : List String
services = "user_register" ∷ []

abbrev first : Launch
first = record { start = user_saver; broker = "b"; id = 0 }

abbrev second : Launch
second = record { start = user_saver; broker = "b"; id = 1 }

abbrev fresh : Launch → Member ℕ String
fresh l = record { launch = l; system = initial (counting l.start.handler) batch_size 0 }

abbrev fetched : System ℕ String
fetched = record (seeing 7 (fresh second).system) { reader = holding "m"; fetched = "m" ∷ [] }

-- Another program changes the world, and the second worker fetches a message.
abbrev one_fetched : Fleet ℕ String
one_fetched = record {
  world = 7;
  members = fresh first ∷ record (fresh second) { system = fetched } ∷ [];
}

two_moored : begin counting 0 (goroutines "b" (workers services)) ≡ fresh first ∷ fresh second ∷ []
unfolding workers enabled has_service str_eq
two_moored = refl

one_fetched-Sails : Sails counting 0 (goroutines "b" (workers services)) one_fetched
one_fetched-Sails =
    onward (onward moored (elsewhere 7 refl))
      (move (fresh first ∷ []) (fresh second) [] fetched two_moored (fetch "m" refl refl) refl)

fleet-Accounts_example :
    (map (λ (x : Member ℕ String). x.launch) one_fetched.members
      ≡ goroutines "b" (workers services))
    × All
        (λ m.
          handed m.system.loop.calls ++ m.system.loop.batch ++ in_flight m.system.reader
          ≡ m.system.fetched)
        one_fetched.members
fleet-Accounts_example = fleet-Accounts counting 0 services "b" one_fetched-Sails

-- Both workers then see the cancelled context, the second one with the message in its channel.
abbrev stopped : System ℕ String → System ℕ String
stopped s = record s { loop = step (counting user_saver.handler) batch_size cancelled s.loop }

abbrev first_stopped : Fleet ℕ String
first_stopped = record {
  world = 7;
  members =
      record (fresh first) { system = stopped (seeing 7 (fresh first).system) }
      ∷ record (fresh second) { system = fetched }
      ∷ [];
}

abbrev both_stopped : Fleet ℕ String
both_stopped = record {
  world = 7;
  members =
      record (fresh first) { system = stopped (seeing 7 (fresh first).system) }
      ∷ record (fresh second) { system = stopped fetched }
      ∷ [];
}

both_stopped-Sails : Sails counting 0 (goroutines "b" (workers services)) both_stopped
unfolding start step select flush
both_stopped-Sails =
    onward
      (onward one_fetched-Sails (
        move [] (fresh first) (record (fresh second) { system = fetched } ∷ [])
          (stopped (seeing 7 (fresh first).system)) refl (cancel refl refl) refl))
      (move (record (fresh first) { system = stopped (seeing 7 (fresh first).system) } ∷ [])
        (record (fresh second) { system = fetched }) [] (stopped fetched) refl (cancel refl refl)
        refl)

both_stopped-All : All (λ m. m.system.loop.status ≡ returned none) both_stopped.members
unfolding start step select flush
both_stopped-All = (refl, (refl, tt))

fleet_shutdown_example :
    All
      (λ m. handed m.system.loop.calls ++ in_flight m.system.reader ≡ m.system.fetched)
      both_stopped.members
fleet_shutdown_example =
    fleet_shutdown counting 0 services "b" (λ t bs n. refl) both_stopped-Sails both_stopped-All
