-- ===== src/Worker/Loop/Conservation.antt =====
-- No message that the loop takes from its channel is lost or reordered while `Run` goes on
-- (src/internal/worker/kafka_worker.go).
use go_service_bao_fight.Base.{
  ℕ, ◌≡◌, refl, sym, ap, ◌∙◌, String, Option, none, some, List, [], ◌∷◌, ◌++◌, append_assoc,
  append-nil, arith, leb, ltb, length, Bool-cases, Option-cases, inl, inr,
}
use go_service_bao_fight.Worker.Loop.{
  Handler, Event, cancelled, received, ticked, read_failed, Status, running, returned, Call, Loop,
  flush, flush_batch, settle, select, step, run, start, step-running, step-returned,
}

module _ {B : Type 0} where
  -- The messages of the calls that `Process` accepted, in order.
  abbrev pub handed : List (Call B) → List B
  handed [] = []
  handed (c ∷ cs) = elim c.result [ none ↦ c.batch ++ handed cs | some _ ↦ handed cs ]

  -- The messages that the events deliver before the one that ends the loop.
  abbrev pub taken : List (Event B) → List B
  taken [] = []
  taken (received m ∷ es) = m ∷ taken es
  taken (ticked ∷ es) = taken es
  taken (cancelled ∷ es) = []
  taken (read_failed e ∷ es) = []

  -- What the events deliver to a loop in this status.
  abbrev pub resumed : Status → List (Event B) → List B
  resumed running es = taken es
  resumed (returned r) es = []

  resumed-nil : (r : Status) → resumed r [] ≡ []
  resumed-nil running = refl
  resumed-nil (returned r) = refl

  handed-cons :
      (c : Call B) (cs ds : List (Call B))
      → handed (cs ++ ds) ≡ handed cs ++ handed ds
      → handed (c ∷ (cs ++ ds)) ≡ handed (c ∷ cs) ++ handed ds
  handed-cons c cs ds h = elim (Option-cases c.result) [
    | inl e ↦ rw e (ap (λ x. c.batch ++ x) h ∙ sym (append_assoc c.batch (handed cs) (handed ds)))
    | inr (x, e) ↦ rw e h
  ]

  pub handed-append : (cs ds : List (Call B)) → handed (cs ++ ds) ≡ handed cs ++ handed ds
  handed-append [] ds = refl
  handed-append (c ∷ cs) ds = handed-cons c cs ds (handed-append cs ds)

module _ {W B : Type 0} where
  -- What the loop has accepted and what it still holds.
  abbrev pub accounted : Loop W B → List B
  accounted s = handed s.calls ++ s.batch

  -- `flush` moves the batch to the accepted calls or leaves it where it is.
  pub accounted-flush :
      (process : Handler W B) (s : Loop W B) → accounted (flush process s) ≡ accounted s
  unfolding flush
  accounted-flush process s = go s.batch refl
    where
      go : (bs : List B) → s.batch ≡ bs → accounted (flush_batch process bs s) ≡ accounted s
      go [] e = refl
      go (b ∷ bs) e = elim (Option-cases (process s.batch s.world).0) [
        | inl r ↦ rw (r, settle) (rw (append-nil, handed-append, append-nil) refl)
        | inr (x, r) ↦ rw (r, settle) (rw (handed-append, append-nil) refl)
      ]

  pub status-flush : (process : Handler W B) (s : Loop W B) → (flush process s).status ≡ s.status
  unfolding flush
  status-flush process s = go s.batch
    where
      go : (bs : List B) → (flush_batch process bs s).status ≡ s.status
      go [] = refl
      go (b ∷ bs) = ground arith

  -- A flush that `Process` accepts leaves an empty batch.
  pub flush_empties :
      (process : Handler W B) (s : Loop W B)
      → (process s.batch s.world).0 ≡ none
      → (flush process s).batch ≡ []
  unfolding flush
  flush_empties process s h = go s.batch refl
    where
      go : (bs : List B) → s.batch ≡ bs → (flush_batch process bs s).batch ≡ []
      go [] e = e
      go (b ∷ bs) e = rw (h, settle)

  expected-flush :
      (process : Handler W B) (es : List (Event B)) (s : Loop W B)
      → accounted (flush process s) ++ resumed (flush process s).status es
        ≡ accounted s ++ resumed s.status es
  expected-flush process es s = rw (accounted-flush process s) (rw (status-flush process s) refl)

  expected-received :
      (m : B) (es : List (Event B)) (s : Loop W B)
      → accounted (record s { batch = s.batch ++ m ∷ [] }) ++ taken es ≡ accounted s ++ m ∷ taken es
  expected-received m es s = simp append_assoc

  accounted-select :
      (process : Handler W B) (size : ℕ) (e : Event B) (es : List (Event B)) (s : Loop W B)
      → s.status ≡ running
      → accounted (select process size e s) ++ resumed (select process size e s).status es
        ≡ accounted s ++ taken (e ∷ es)
  unfolding select
  accounted-select process size cancelled es s h = ap (λ x. x ++ []) (accounted-flush process s)
  accounted-select process size (received m) es s h =
      let t : Loop W B = record s { batch = s.batch ++ m ∷ [] } in
      elim (Bool-cases (leb size (length t.batch))) [
        | inl e ↦ rw e (expected-flush process es t ∙ rw h (expected-received m es s))
        | inr e ↦ rw e (rw h (expected-received m es s))
      ]
  accounted-select process size ticked es s h = elim (Bool-cases (ltb 0 (length s.batch))) [
    | inl e ↦ rw e (expected-flush process es s ∙ rw h refl)
    | inr e ↦ rw e (rw h refl)
  ]
  accounted-select process size (read_failed x) es s h = refl

  -- What one event adds to a loop that runs.
  pub accounted-step :
      (process : Handler W B) (size : ℕ) (e : Event B) (s : Loop W B)
      → s.status ≡ running
      → accounted (step process size e s) ≡ accounted s ++ taken (e ∷ [])
  accounted-step process size e s h = rw (step-running process size e s h) (
      sym (append-nil _)
      ∙ ap (λ x. accounted (select process size e s) ++ x)
          (sym (resumed-nil (select process size e s).status))
      ∙ accounted-select process size e [] s h)

  -- However the loop came to its state, and whatever `Process` answers: after any events, the
  -- accepted messages with those of the batch are what they were, then what the events delivered.
  accounted-run :
      (process : Handler W B) (size : ℕ) (es : List (Event B)) (s : Loop W B)
      → accounted (run process size es s) ≡ accounted s ++ resumed s.status es
  unfolding run
  accounted-run process size [] s = by_status s.status
    where
      by_status : (r : Status) → accounted s ≡ accounted s ++ resumed r []
      by_status running = sym (append-nil (accounted s))
      by_status (returned r) = sym (append-nil (accounted s))
  accounted-run process size (e ∷ es) s =
      by_status s.status refl (accounted-run process size es (step process size e s))
    where
      by_status :
          (r : Status)
          → s.status ≡ r
          → accounted (run process size es (step process size e s))
            ≡ accounted (step process size e s) ++ resumed (step process size e s).status es
          → accounted (run process size es (step process size e s))
            ≡ accounted s ++ resumed r (e ∷ es)
      by_status running h ih =
          ih ∙ rw (step-running process size e s h) (accounted-select process size e es s h)
      by_status (returned r) h ih = ih ∙ rw (step-returned process size e s h) (rw h refl)

-- For every batch size, every handler and every sequence of events: the messages of the calls that
-- `Process` accepted, in order, followed by the batch that the loop still holds, are exactly the
-- messages taken from the channel before the loop returned. None is lost, doubled or reordered by
-- the loop, failed calls included.
pub run-conserves :
    {W B : Type 0} (process : Handler W B) (size : ℕ) (es : List (Event B)) (w : W)
    → handed (run process size es (start w)).calls ++ (run process size es (start w)).batch
      ≡ taken es
unfolding start
run-conserves process size es w = accounted-run process size es (start w)

-- A loop that has returned stays as it is.
run-returned :
    {W B : Type 0} (process : Handler W B) (size : ℕ) (es : List (Event B)) (s : Loop W B)
    {r : Option String}
    → s.status ≡ returned r
    → run process size es s ≡ s
unfolding run
run-returned process size [] s h = refl
run-returned process size (e ∷ es) s h =
    rw (step-returned process size e s h) (run-returned process size es s h)

-- A read error that reaches a running loop ends it with that error, whatever comes after, and
-- `Process` is not called again: the calls, the world and the batch that it holds are what they were,
-- so the batch is never handed over.
pub run-read_failed :
    {W B : Type 0} (process : Handler W B) (size : ℕ) (e : String) (es : List (Event B))
    (s : Loop W B)
    → s.status ≡ running
    → let after = run process size (read_failed e ∷ es) s in
      (after.calls ≡ s.calls)
      × (after.world ≡ s.world)
      × (after.batch ≡ s.batch)
      × (after.status ≡ returned (some e))
unfolding run select
run-read_failed process size e es s k =
    let t : Loop _ _ = record s { status = returned (some e) } in
    let ended : run process size (read_failed e ∷ es) s ≡ t =
      ap (run process size es) (step-running process size (read_failed e) s k)
      ∙ run-returned process size es t refl in
    (
      ap (λ l. l.calls) ended,
      ap (λ l. l.world) ended,
      ap (λ l. l.batch) ended,
      ap (λ l. l.status) ended,
    )
