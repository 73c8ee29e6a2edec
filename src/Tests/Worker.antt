-- ===== src/Tests/Worker.antt =====
-- The worker's loop (src/internal/worker/kafka_worker.go) on a few messages.
use go_service_bao_fight.Base.{
  ℕ, suc, zero, ◌≡◌, refl, String, none, some, List, [], ◌∷◌, ◌++◌, arith,
}
use go_service_bao_fight.Worker.Loop.{
  Handler, Event, cancelled, received, ticked, read_failed, running, returned, Loop, start, run,
  step, select, flush,
}
use go_service_bao_fight.Worker.Loop.Conservation.{handed, run-conserves, run-read_failed}
use go_service_bao_fight.Worker.Loop.Bounds.{NeverFails, IsBounded, batch-IsBounded}
use go_service_bao_fight.Worker.System.{
  System, Reach, here, next, fetch, send, cancel, reading, holding, initial, in_flight,
}
use go_service_bao_fight.Worker.System.Conservation.{fetched_conserved, shutdown_accounts}

-- A handler that fails once and then accepts, one that accepts, and one that fails.
abbrev flaky : Handler ℕ String
flaky bs zero = (some "down", 1)
flaky bs (suc n) = (none, suc (suc n))

abbrev accepting : Handler ℕ String
accepting bs n = (none, suc n)

abbrev failing : Handler ℕ String
failing bs n = (some "down", suc n)

accepting-NeverFails : NeverFails accepting
accepting-NeverFails bs n = refl

abbrev events : List (Event String)
events = received "a" ∷ received "b" ∷ ticked ∷ received "c" ∷ cancelled ∷ received "d" ∷ []

run-conserves_example :
    handed (run flaky 2 events (start 0)).calls ++ (run flaky 2 events (start 0)).batch
    ≡ "a" ∷ "b" ∷ "c" ∷ []
run-conserves_example = run-conserves flaky 2 events 0

batch-IsBounded_example : IsBounded 2 (run accepting 2 events (start 0))
batch-IsBounded_example = batch-IsBounded accepting 2 events 0 accepting-NeverFails (omega arith)

abbrev holding_a : Loop ℕ String
holding_a = record { world = 0; batch = "a" ∷ []; status = running; calls = []; resets = 0 }

-- One message is fetched and sent, a second one is fetched, and the context is cancelled.
abbrev fetched_a : System ℕ String
fetched_a = record (initial accepting 2 0) { reader = holding "a"; fetched = "a" ∷ [] }

abbrev sent_a : System ℕ String
sent_a = record fetched_a {
  reader = reading;
  loop = step accepting 2 (received "a") fetched_a.loop;
}

abbrev fetched_b : System ℕ String
fetched_b = record sent_a { reader = holding "b"; fetched = "a" ∷ "b" ∷ [] }

abbrev stopped : System ℕ String
stopped = record fetched_b { loop = step accepting 2 cancelled fetched_b.loop }

fetched_b-Reach : Reach accepting 2 0 fetched_b
unfolding start step select flush
fetched_b-Reach =
    next (next (next here (fetch "a" refl refl)) (send "a" refl refl refl)) (fetch "b" refl refl)

stopped-Reach : Reach accepting 2 0 stopped
unfolding start step select flush
stopped-Reach = next fetched_b-Reach (cancel refl refl)

stopped-returned : stopped.loop.status ≡ returned none
unfolding start step select flush
stopped-returned = refl

fetched_conserved_example :
    handed fetched_b.loop.calls ++ fetched_b.loop.batch ++ in_flight fetched_b.reader
    ≡ "a" ∷ "b" ∷ []
fetched_conserved_example = fetched_conserved accepting 2 0 fetched_b-Reach

shutdown_accounts_example : handed stopped.loop.calls ++ in_flight stopped.reader ≡ "a" ∷ "b" ∷ []
shutdown_accounts_example =
    shutdown_accounts accepting 2 0 accepting-NeverFails stopped-Reach stopped-returned

run-read_failed_example :
    ((run failing 2 (read_failed "eof" ∷ events) holding_a).calls ≡ [])
    × ((run failing 2 (read_failed "eof" ∷ events) holding_a).world ≡ 0)
    × ((run failing 2 (read_failed "eof" ∷ events) holding_a).batch ≡ "a" ∷ [])
    × ((run failing 2 (read_failed "eof" ∷ events) holding_a).status ≡ returned (some "eof"))
run-read_failed_example = run-read_failed failing 2 "eof" events holding_a refl
