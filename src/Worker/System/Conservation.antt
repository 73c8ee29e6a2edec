-- ===== src/Worker/System/Conservation.antt =====
-- What the two goroutines of a worker account for in every interleaving
-- (src/internal/worker/kafka_worker.go).
use go_service_bao_fight.Base.{
  ℕ, ◌≡◌, refl, sym, ◌∙◌, ap, String, none, some, [], ◌∷◌, ◌++◌, append-nil, leb, ltb, length,
  Bool-cases, inl, inr,
}
use go_service_bao_fight.Worker.Loop.{
  Handler, Event, cancelled, received, ticked, read_failed, running, returned, Loop, select, step,
  start, step-running,
}
use go_service_bao_fight.Worker.Loop.Conservation.{
  handed, accounted, accounted-step, status-flush, flush_empties,
}
use go_service_bao_fight.Worker.Loop.Bounds.{NeverFails}
use go_service_bao_fight.Worker.System.{
  Reader, System, in_flight, Move, fetch, fetch_error, send, send_error, tick, cancel, Reach, here,
  next,
}

module _ {W B : Type 0} where
  -- Every message that was fetched is accepted, in the batch or in the channel.
  abbrev pub IsConserved : System W B → Type 0
  IsConserved s = accounted s.loop ++ in_flight s.reader ≡ s.fetched

  empty_hand :
      (s : System W B) → in_flight s.reader ≡ [] → IsConserved s → accounted s.loop ≡ s.fetched
  empty_hand s r h = sym (append-nil _) ∙ ap (λ x. accounted s.loop ++ x) (sym r) ∙ h

module _ {W B : Type 0} (process : Handler W B) (size : ℕ) where
  -- An event that adds nothing, while the reader's hand stays as it is.
  quiet :
      (e : Event B) (s : System W B) (r : Reader B)
      → s.loop.status ≡ running
      → accounted s.loop ++ in_flight r ≡ s.fetched
      → accounted (step process size e s.loop) ≡ accounted s.loop ++ []
      → accounted (step process size e s.loop) ++ in_flight r ≡ s.fetched
  quiet e s r k h a = rw a (rw append-nil h)

  pub Move-IsConserved : (s u : System W B) → Move process size s u → IsConserved s → IsConserved u
  Move-IsConserved s u (fetch m r e) h =
      rw e (ap (λ x. x ++ m ∷ []) (empty_hand s (ap in_flight r) h))
  Move-IsConserved s u (fetch_error x r e) h = rw e (append-nil _ ∙ empty_hand s (ap in_flight r) h)
  Move-IsConserved s u (send m r k e) h = rw e (
      append-nil _
      ∙ accounted-step process size (received m) s.loop k
      ∙ ap (λ x. accounted s.loop ++ x) (sym (ap in_flight r))
      ∙ h)
  Move-IsConserved s u (send_error x r k e) h = rw e (
      append-nil _
      ∙ accounted-step process size (read_failed x) s.loop k
      ∙ append-nil _
      ∙ empty_hand s (ap in_flight r) h)
  Move-IsConserved s u (tick k e) h =
      rw e (quiet ticked s s.reader k h (accounted-step process size ticked s.loop k))
  Move-IsConserved s u (cancel k e) h =
      rw e (quiet cancelled s s.reader k h (accounted-step process size cancelled s.loop k))

-- In every state that the reader and the loop reach together, by whatever interleaving, the accepted
-- messages, then those of the batch, then the one that the reader holds are exactly what was fetched
-- from Kafka, in order.
pub fetched_conserved :
    {W B : Type 0} (process : Handler W B) (size : ℕ) (w : W) {s : System W B}
    → Reach process size w s
    → handed s.loop.calls ++ s.loop.batch ++ in_flight s.reader ≡ s.fetched
unfolding start
fetched_conserved process size w here = refl
fetched_conserved process size w (next {s} {u} r m) =
    Move-IsConserved process size s u m (fetched_conserved process size w r)

module _ {W B : Type 0} (process : Handler W B) (size : ℕ) where
  status-select_received :
      (m : B) (l : Loop W B) → (select process size (received m) l).status ≡ l.status
  unfolding select
  status-select_received m l =
      let t : Loop W B = record l { batch = l.batch ++ m ∷ [] } in
      elim (Bool-cases (leb size (length t.batch))) [
        | inl e ↦ rw e (status-flush process t)
        | inr e ↦ rw e refl
      ]

  status-select_ticked : (l : Loop W B) → (select process size ticked l).status ≡ l.status
  unfolding select
  status-select_ticked l = elim (Bool-cases (ltb 0 (length l.batch))) [
    | inl e ↦ rw e (status-flush process l)
    | inr e ↦ rw e refl
  ]

  status-select_failed :
      (x : String) (l : Loop W B)
      → (select process size (read_failed x) l).status ≡ returned (some x)
  unfolding select
  status-select_failed x l = refl

  batch-select_cancelled :
      NeverFails process → (l : Loop W B) → (select process size cancelled l).batch ≡ []
  unfolding select
  batch-select_cancelled ok l = flush_empties process l (ok l.batch l.world)

module _ {W B : Type 0} (process : Handler W B) (size : ℕ) (ok : NeverFails process) where
  -- A loop that has returned without an error has flushed its batch.
  abbrev pub IsDrained : Loop W B → Type 0
  IsDrained l = l.status ≡ returned none → l.batch ≡ []

  step-IsDrained :
      (e : Event B) (l : Loop W B) → l.status ≡ running → IsDrained (step process size e l)
  step-IsDrained cancelled l k =
      rw (step-running process size cancelled l k) (λ d. batch-select_cancelled process size ok l)
  step-IsDrained (received m) l k =
      rw (step-running process size (received m) l k)
        (λ d. cc (status-select_received process size m l))
  step-IsDrained ticked l k =
      rw (step-running process size ticked l k) (λ d. cc (status-select_ticked process size l))
  step-IsDrained (read_failed x) l k =
      rw (step-running process size (read_failed x) l k)
        (λ d. cc (status-select_failed process size x l))

  pub Move-IsDrained :
      (s u : System W B) → Move process size s u → IsDrained s.loop → IsDrained u.loop
  Move-IsDrained s u (fetch m r e) h = rw e h
  Move-IsDrained s u (fetch_error x r e) h = rw e h
  Move-IsDrained s u (send m r k e) h = rw e (step-IsDrained (received m) s.loop k)
  Move-IsDrained s u (send_error x r k e) h = rw e (step-IsDrained (read_failed x) s.loop k)
  Move-IsDrained s u (tick k e) h = rw e (step-IsDrained ticked s.loop k)
  Move-IsDrained s u (cancel k e) h = rw e (step-IsDrained cancelled s.loop k)

  Reach-IsDrained : (w : W) {s : System W B} → Reach process size w s → IsDrained s.loop
  unfolding start
  Reach-IsDrained w here = λ d. refl
  Reach-IsDrained w (next {s} {u} r m) = Move-IsDrained s u m (Reach-IsDrained w r)

-- If `Process` never fails and the loop has returned nil, as it does when the context is cancelled,
-- every fetched message was accepted, except for the one that the reader may still hold: that one
-- was fetched and reaches nobody.
pub shutdown_accounts :
    {W B : Type 0} (process : Handler W B) (size : ℕ) (w : W) {s : System W B}
    → NeverFails process
    → Reach process size w s
    → s.loop.status ≡ returned none
    → handed s.loop.calls ++ in_flight s.reader ≡ s.fetched
shutdown_accounts process size w {s} ok r d =
    ap (λ x. x ++ in_flight s.reader)
      (sym (append-nil _)
        ∙ ap (λ x. handed s.loop.calls ++ x) (sym (Reach-IsDrained process size ok w r d)))
    ∙ fetched_conserved process size w r
