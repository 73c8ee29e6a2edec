-- ===== src/Worker/Loop.antt =====
-- `kafkaWorker.Run` and `flush` (src/internal/worker/kafka_worker.go). `Handler.Process` is a
-- parameter: any function on the batch and the world `W` that returns an error or none.
pub mod Conservation
pub mod Bounds
pub mod Stuck
use go_service_bao_fight.Base.{
  ℕ, ◌+◌, ◌≡◌, String, Option, none, some, List, [], ◌∷◌, ◌++◌, leb, ltb, length, if◌then◌else◌,
}

-- `worker.Handler`: `Process(ctx, batch) error`, for handlers that return. No handler of the program
-- reads its context for anything but to pass it on; one that panics ends the process, which is outside
-- of this model of the loop (`Processed` of Service/Reactions tells that case).
abbrev pub Handler : Type 0 → Type 0 → Type 0
Handler W B = List B → W → Option String × W

-- What `select` takes: the cancelled context, a message of the reader, the ticker, or its error.
pub data Event (B : Type 0) : Type 0 where
  cancelled : Event B
  received : B → Event B
  ticked : Event B
  read_failed : String → Event B

-- `Run` goes on, or has returned its error.
pub data Status : Type 0 where
  running : Status
  returned : Option String → Status

-- A call of `Process` and its result.
pub record Call (B : Type 0) : Type 0 where
  pub batch : List B
  pub result : Option String

-- The variables of `Run`. `calls` is history, the oldest first; `resets` counts `ticker.Reset`.
pub record Loop (W B : Type 0) : Type 0 where
  pub world : W
  pub batch : List B
  pub status : Status
  pub calls : List (Call B)
  pub resets : ℕ

module _ {W B : Type 0} where
  -- What `flush` does with the result of `Process`: the batch is emptied only on success.
  abbrev settle : Option String × W → Loop W B → Loop W B
  settle (some e, w) s = record s {
    world = w;
    calls = s.calls ++ record { batch = s.batch; result = some e } ∷ [];
  }
  settle (none, w) s = record s {
    world = w;
    batch = [];
    calls = s.calls ++ record { batch = s.batch; result = none } ∷ [];
  }

  abbrev flush_batch : Handler W B → List B → Loop W B → Loop W B
  flush_batch process [] s = s
  flush_batch process (b ∷ bs) s = settle (process s.batch s.world) s

  unfoldable pub flush : Handler W B → Loop W B → Loop W B
  flush process s = flush_batch process s.batch s

  abbrev reset_ticker : Loop W B → Loop W B
  reset_ticker s = record s { resets = s.resets + 1 }

  -- One case of the `select`; `size` is `cfg.BatchSize`.
  unfoldable pub select : Handler W B → ℕ → Event B → Loop W B → Loop W B
  unfolding flush
  select process size cancelled s = record (flush process s) { status = returned none }
  select process size (received m) s =
      let t : Loop W B = record s { batch = s.batch ++ m ∷ [] } in
      if leb size (length t.batch) then reset_ticker (flush process t) else t
  select process size ticked s = if ltb 0 (length s.batch) then flush process s else s
  select process size (read_failed e) s = record s { status = returned (some e) }

  abbrev step_status : Handler W B → ℕ → Event B → Status → Loop W B → Loop W B
  step_status process size e running s = select process size e s
  step_status process size e (returned r) s = s

  -- The `for` loop over the events that come: nothing happens after `Run` has returned.
  unfoldable pub step : Handler W B → ℕ → Event B → Loop W B → Loop W B
  unfolding select
  step process size e s = step_status process size e s.status s

  unfoldable pub run : Handler W B → ℕ → List (Event B) → Loop W B → Loop W B
  run process size [] s = s
  run process size (e ∷ es) s = run process size es (step process size e s)

  unfoldable pub start : W → Loop W B
  start w = record { world = w; batch = []; status = running; calls = []; resets = 0 }

  pub step-running :
      (process : Handler W B) (size : ℕ) (e : Event B) (s : Loop W B)
      → s.status ≡ running
      → step process size e s ≡ select process size e s
  unfolding step
  step-running process size e s h = rw (h, step_status)

  pub step-returned :
      (process : Handler W B) (size : ℕ) (e : Event B) (s : Loop W B) {r : Option String}
      → s.status ≡ returned r
      → step process size e s ≡ s
  unfolding step
  step-returned process size e s h = rw (h, step_status)
