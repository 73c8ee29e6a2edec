-- ===== src/Worker/Loop/Stuck.antt =====
-- A batch that `Process` refuses and keeps refusing is never given up
-- (src/internal/worker/kafka_worker.go): `flush` empties the batch on success only.
use go_service_bao_fight.Base.{
  ℕ, ◌≡◌, refl, ◌∙◌, String, some, List, [], ◌∷◌, ◌++◌, append-nil, leb, ltb, length, Bool-cases,
  inl, inr,
}
use go_service_bao_fight.Worker.Loop.{
  Handler, Event, cancelled, received, ticked, read_failed, Status, running, returned, Loop, flush,
  flush_batch, settle, select, step, step-running, step-returned, run,
}
use go_service_bao_fight.Worker.Loop.Conservation.{handed, handed-append}

-- `Bad w bs`: in the world `w` the batch `bs` is refused, the refusal leaves it so, and more
-- messages do not help.
pub record IsPoison {W B : Type 0} (process : Handler W B) (Bad : W → List B → Type 0)
    : Type 0 where
  pub refused : (bs : List B) (w : W) → Bad w bs → (e : String) × ((process bs w).0 ≡ some e)
  pub lasting : (bs : List B) (w : W) → Bad w bs → Bad (process bs w).1 bs
  pub growing : (bs : List B) (m : B) (w : W) → Bad w bs → Bad w (bs ++ m ∷ [])

module _ {W B : Type 0} (process : Handler W B) (Bad : W → List B → Type 0)
    (p : IsPoison process Bad) where
  -- The state is bad, and nothing was accepted since `before`.
  abbrev IsStuck : List B → Loop W B → Type 0
  IsStuck before s = Bad s.world s.batch × (handed s.calls ≡ before)

  flush-IsStuck :
      (before : List B) (s : Loop W B) → IsStuck before s → IsStuck before (flush process s)
  unfolding flush
  flush-IsStuck before s (bad, h) = go s.batch
    where
      go : (bs : List B) → IsStuck before (flush_batch process bs s)
      go [] = (bad, h)
      go (b ∷ bs) =
          let (e, r) = p.refused s.batch s.world bad in
          rw (r, settle) (p.lasting s.batch s.world bad, handed-append s.calls _ ∙ append-nil _ ∙ h)

  select-IsStuck :
      (size : ℕ) (e : Event B) (before : List B) (s : Loop W B)
      → IsStuck before s
      → IsStuck before (select process size e s)
  unfolding select
  select-IsStuck size cancelled before s v = flush-IsStuck before s v
  select-IsStuck size (received m) before s (bad, h) =
      let t : Loop W B = record s { batch = s.batch ++ m ∷ [] } in
      let w : IsStuck before t = (p.growing s.batch m s.world bad, h) in
      elim (Bool-cases (leb size (length t.batch))) [
        | inl e ↦ rw e (flush-IsStuck before t w)
        | inr e ↦ rw e w
      ]
  select-IsStuck size ticked before s v = elim (Bool-cases (ltb 0 (length s.batch))) [
    | inl e ↦ rw e (flush-IsStuck before s v)
    | inr e ↦ rw e v
  ]
  select-IsStuck size (read_failed x) before s v = v

  -- The message that arrives may be the one that spoils the batch.
  received-IsStuck :
      (size : ℕ) (m : B) (s : Loop W B)
      → s.status ≡ running
      → Bad s.world (s.batch ++ m ∷ [])
      → IsStuck (handed s.calls) (step process size (received m) s)
  unfolding select
  received-IsStuck size m s k bad =
      let t : Loop W B = record s { batch = s.batch ++ m ∷ [] } in
      rw (step-running process size (received m) s k)
        (elim (Bool-cases (leb size (length t.batch))) [
          | inl e ↦ rw e (flush-IsStuck (handed s.calls) t (bad, refl))
          | inr e ↦ rw e (bad, refl)
        ])

  step-IsStuck :
      (size : ℕ) (e : Event B) (before : List B) (s : Loop W B)
      → IsStuck before s
      → IsStuck before (step process size e s)
  step-IsStuck size e before s v = by_status s.status refl
    where
      by_status : (r : Status) → s.status ≡ r → IsStuck before (step process size e s)
      by_status running h = rw (step-running process size e s h) (select-IsStuck size e before s v)
      by_status (returned r) h = rw (step-returned process size e s h) v

  run-IsStuck :
      (size : ℕ) (es : List (Event B)) (before : List B) (s : Loop W B)
      → IsStuck before s
      → IsStuck before (run process size es s)
  unfolding run
  run-IsStuck size [] before s v = v
  run-IsStuck size (e ∷ es) before s v =
      run-IsStuck size es before (step process size e s) (step-IsStuck size e before s v)

-- Once the batch is one that `Process` refuses for good, no later event makes it accept anything:
-- the accepted messages stay those of the moment, and the batch stays refused.
run_stuck :
    {W B : Type 0} (process : Handler W B) (Bad : W → List B → Type 0) (size : ℕ)
    (es : List (Event B)) (s : Loop W B)
    → IsPoison process Bad
    → Bad s.world s.batch
    → Bad (run process size es s).world (run process size es s).batch
      × (handed (run process size es s).calls ≡ handed s.calls)
run_stuck process Bad size es s p bad =
    run-IsStuck process Bad p size es (handed s.calls) s (bad, refl)

-- The same from the message that spoils the batch: a running loop that receives it accepts nothing
-- from then on.
pub run_stuck_from :
    {W B : Type 0} (process : Handler W B) (Bad : W → List B → Type 0) (size : ℕ) (m : B)
    (es : List (Event B)) (s : Loop W B)
    → IsPoison process Bad
    → s.status ≡ running
    → Bad s.world (s.batch ++ m ∷ [])
    → handed (run process size (received m ∷ es) s).calls ≡ handed s.calls
unfolding run
run_stuck_from process Bad size m es s p k bad =
    (run-IsStuck process Bad p size es (handed s.calls) (step process size (received m) s)
      (received-IsStuck process Bad p size m s k bad)).1
