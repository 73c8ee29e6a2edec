-- ===== src/Worker/Loop/Bounds.antt =====
-- How large a batch gets while `Process` succeeds, and what a `Process` that fails leaves behind
-- (src/internal/worker/kafka_worker.go).
use go_service_bao_fight.Base.{
  ℕ, ◌≤◌, ◌<◌, ◌≡◌, refl, none, List, [], ◌∷◌, ◌++◌, arith, leb, ltb, length, length-append, All,
  Bool-cases, not_leb→lt, ap, inl, inr,
}
use go_service_bao_fight.Worker.Loop.{
  Handler, Event, cancelled, received, ticked, read_failed, Status, running, returned, Call, Loop,
  flush, flush_batch, settle, select, step, step-running, step-returned, run, start,
}

-- A call that holds from one message up to the batch size.
abbrev pub IsSized : {B : Type 0} → ℕ → Call B → Type 0
IsSized size c = (1 ≤ length c.batch) × (length c.batch ≤ size)

abbrev pub NeverFails : {W B : Type 0} → Handler W B → Type 0
NeverFails {W} {B} process = (bs : List B) (w : W) → (process bs w).0 ≡ none

-- What holds between two events.
pub record IsBounded {W B : Type 0} (size : ℕ) (s : Loop W B) : Type 0 where
  pub room : length s.batch < size
  pub sized : All (IsSized size) s.calls

All-snoc :
    {A : Type 0} (P : A → Type 0) (xs : List A) (x : A) → All P xs → P x → All P (xs ++ x ∷ [])
All-snoc P [] x h k = (k, tt)
All-snoc P (y ∷ xs) x h k = (h.0, All-snoc P xs x h.1 k)

module _ {W B : Type 0} (process : Handler W B) (ok : NeverFails process) (size : ℕ) where
  flush-IsBounded :
      (s : Loop W B)
      → length s.batch ≤ size
      → 0 < size
      → All (IsSized size) s.calls
      → IsBounded size (flush process s)
  unfolding flush
  flush-IsBounded s h pos k = go s.batch refl
    where
      go : (bs : List B) → s.batch ≡ bs → IsBounded size (flush_batch process bs s)
      go [] e = record { room = rw e pos; sized = k }
      go (b ∷ bs) e =
          rw (ok s.batch s.world, settle)
            (record {
              room = pos;
              sized = All-snoc _ s.calls _ k (rw e (omega (arith, ap length e)), h);
            })

  select-IsBounded :
      (e : Event B) (s : Loop W B)
      → 0 < size
      → IsBounded size s
      → IsBounded size (select process size e s)
  unfolding select
  select-IsBounded cancelled s pos v =
      let b = flush-IsBounded s (omega (arith, v.room)) pos v.sized in
      record { room = b.room; sized = b.sized }
  select-IsBounded (received m) s pos v =
      let t : Loop W B = record s { batch = s.batch ++ m ∷ [] } in
      elim (Bool-cases (leb size (length t.batch))) [
        | inl e ↦ rw e (
            let b =
              flush-IsBounded t (omega (arith, v.room, length-append s.batch (m ∷ []))) pos
                v.sized in
            record { room = b.room; sized = b.sized })
        | inr e ↦ rw e (record { room = not_leb→lt size _ e; sized = v.sized })
      ]
  select-IsBounded ticked s pos v = elim (Bool-cases (ltb 0 (length s.batch))) [
    | inl e ↦ rw e (flush-IsBounded s (omega (arith, v.room)) pos v.sized)
    | inr e ↦ rw e v
  ]
  select-IsBounded (read_failed x) s pos v = record { room = v.room; sized = v.sized }

  step-IsBounded :
      (e : Event B) (s : Loop W B)
      → 0 < size
      → IsBounded size s
      → IsBounded size (step process size e s)
  step-IsBounded e s pos v = by_status s.status refl
    where
      by_status : (r : Status) → s.status ≡ r → IsBounded size (step process size e s)
      by_status running h = rw (step-running process size e s h) (select-IsBounded e s pos v)
      by_status (returned r) h = rw (step-returned process size e s h) v

  run-IsBounded :
      (es : List (Event B)) (s : Loop W B)
      → 0 < size
      → IsBounded size s
      → IsBounded size (run process size es s)
  unfolding run
  run-IsBounded [] s pos v = v
  run-IsBounded (e ∷ es) s pos v =
      run-IsBounded es (step process size e s) pos (step-IsBounded e s pos v)

-- If `Process` never fails and the batch size is at least 1: after any events the batch holds fewer
-- messages than the batch size, and every call of `Process` was given at least one message and at
-- most the batch size.
pub batch-IsBounded :
    {W B : Type 0} (process : Handler W B) (size : ℕ) (es : List (Event B)) (w : W)
    → NeverFails process
    → 0 < size
    → IsBounded size (run process size es (start w))
unfolding start
batch-IsBounded process size es w ok pos =
    run-IsBounded process ok size es (start w) pos (record { room = pos; sized = tt })
