-- ===== src/Producer/Startup.antt =====
-- The order in which the producer starts and stops (src/cmd/app/producer/main.go).
use go_service_bao_fight.Base.{
  ℕ, zero, suc, ◌+◌, String, ◌≡◌, refl, ap, ◌∙◌, Bool, true, false, Option, none, some, List, [],
  ◌∷◌, ltb, ◌==◌, if◌then◌else◌, arith,
}
use go_service_bao_fight.Effects.{GoError}
use go_service_bao_fight.Config.{Environment}
use go_service_bao_fight.Program.{Program, ◌>>=◌, ◌>>◌, act, ask, check, Leads, Leads-bind}
use go_service_bao_fight.Producer.{
  Platform, Event, migrations, connection, attempt, slept, bucket_made, policy_set, pinged,
  watching, topics_ensured, listening, signalled, shut_down, killed, bucket_name, read_policy,
  try_s3, pause, share_bucket, or_retry, connect_s3, migrate, open_database, reach_s3, make_bucket,
  ensure_bucket, reach_redis, prepare,
}

-- How far a producer has come. `connected` counts the failed attempts at S3, `failing` waits for
-- `Fatal`, and `broken` is what no history of a producer reaches.
pub data Stage : Type 0 where
  fresh : Stage
  migrated : Stage
  connected : ℕ → Stage
  pausing : ℕ → Stage
  stored : Stage
  unshared : Stage
  reachable : Stage
  prepared : Stage
  serving : Stage
  stopping : Stage
  exited : Stage
  failing : Stage
  dead : Stage
  broken : Stage

abbrev pub or_failing : Stage → Option GoError → Stage
or_failing s none = s
or_failing s (some e) = failing

abbrev after_try : ℕ → Option GoError → Stage
after_try k none = stored
after_try k (some e) = if ltb k 10 then pausing (suc k) else broken

-- The one order that is allowed.
abbrev pub advance : Stage → Event → Stage
advance fresh (migrations err) = or_failing migrated err
advance migrated (connection err) = or_failing (connected 0) err
advance (connected k) (attempt err) = after_try k err
advance (connected k) (killed text) = if k == 10 then dead else broken
advance (pausing k) (slept n) = if n == 2 then connected k else broken
advance stored (bucket_made err) = or_failing unshared err
advance unshared (policy_set policy) = stored
advance stored (pinged err) = or_failing reachable err
advance reachable (watching broker) = reachable
advance reachable (topics_ensured err) = prepared
advance prepared (listening server port) = serving
advance serving signalled = stopping
advance stopping (shut_down err) = exited
advance failing (killed text) = dead
advance _ _ = broken

abbrev pub stage : List Event → Stage
stage [] = fresh
stage (e ∷ es) = advance (stage es) e

abbrev pub IsDead : List Event → Type 0
IsDead es = stage es ≡ dead

abbrev pub IsAt : Stage → List Event → Type 0
IsAt s es = stage es ≡ s

module _ {W : Type 0} where
  Leads-act :
      {A : Type 0} (s : Stage) (t : A → Stage) (f : W → A × W) (event : A → Event)
      → ((a : A) → advance s (event a) ≡ t a)
      → Leads IsDead (IsAt s) (act f event) (λ a. IsAt (t a))
  Leads-act s t f event k p h = let a = (f p.world).0 in ap (λ u. advance u (event a)) h ∙ k a

  Leads-check :
      (s : Option GoError → Stage) (text : String)
      → ((e : GoError) → advance (s (some e)) (killed text) ≡ dead)
      → (err : Option GoError)
      → Leads IsDead (IsAt (s err)) (check {W = W} killed text err) (λ _. IsAt (s none))
  Leads-check s text k none p h = h
  Leads-check s text k (some e) p h = ap (λ u. advance u (killed text)) h ∙ k e

  -- A call whose error is fatal.
  Leads-checked :
      (s t : Stage) (f : W → Option GoError × W) (event : Option GoError → Event) (text : String)
      → ((err : Option GoError) → advance s (event err) ≡ or_failing t err)
      → Leads IsDead (IsAt s) (act f event >>= check killed text) (λ _. IsAt t)
  Leads-checked s t f event text k =
      Leads-bind IsDead (IsAt s) (λ err. IsAt (or_failing t err)) (λ _. IsAt t) (act f event)
        (check killed text) (Leads-act s (or_failing t) f event k)
        (Leads-check (or_failing t) text (λ e. refl))

  -- One stretch after another, by the stages between them.
  pub Leads-then :
      {A C : Type 0} (s t : Stage) (R : C → List Event → Type 0) (m : Program W Event A)
      (k : Program W Event C)
      → Leads IsDead (IsAt s) m (λ _. IsAt t)
      → Leads IsDead (IsAt t) k R
      → Leads IsDead (IsAt s) (m >> k) R
  Leads-then s t R m k h g = Leads-bind IsDead (IsAt s) (λ _. IsAt t) R m (λ _. k) h (λ _. g)

module _ {W : Type 0} (platform : Platform W) (env : Environment) where
  migrate-Leads : Leads IsDead (IsAt fresh) (migrate platform env) (λ _. IsAt migrated)
  unfolding migrate
  migrate-Leads = Leads-checked fresh migrated _ migrations _ (λ err. refl)

  open_database-Leads :
      Leads IsDead (IsAt migrated) (open_database platform env) (λ _. IsAt (connected 0))
  unfolding open_database
  open_database-Leads = Leads-checked migrated (connected 0) _ connection _ (λ err. refl)

  -- After the loop: S3 answered, or ten attempts failed.
  abbrev tried : Option GoError → Stage
  tried none = stored
  tried (some e) = connected 10

  abbrev or_pausing : ℕ → Option GoError → Stage
  or_pausing k none = stored
  or_pausing k (some e) = pausing (suc k)

  or_retry-Leads :
      (k : ℕ) (again : Option GoError → Program W Event (Option GoError))
      → ((e : GoError)
          → Leads IsDead (IsAt (connected (suc k))) (again (some e)) (λ r. IsAt (tried r)))
      → (err : Option GoError)
      → Leads IsDead
          (IsAt (or_pausing k err))
          (or_retry platform env again err)
          (λ r. IsAt (tried r))
  or_retry-Leads k again more none = λ p h. h
  or_retry-Leads k again more (some e) =
      Leads-then (pausing (suc k)) (connected (suc k)) (λ r. IsAt (tried r)) (pause platform env)
        (again (some e))
        (Leads-act (pausing (suc k)) (λ _. connected (suc k)) (λ w. (tt, platform.sleep 2 w))
          (λ _. slept 2) (λ a. refl))
        (more e)

  after_try_lem :
      (k : ℕ) → ltb k 10 ≡ true → (err : Option GoError) → after_try k err ≡ or_pausing k err
  after_try_lem k h none = refl
  after_try_lem k h (some e) = rw h refl

  connect_s3-Leads :
      (n k : ℕ)
      → k + n ≡ 10
      → (e : GoError)
      → Leads IsDead (IsAt (connected k)) (connect_s3 platform env n (some e)) (λ r. IsAt (tried r))
  unfolding connect_s3
  connect_s3-Leads zero k h e = λ p x. x ∙ ap connected (omega (arith, h))
  connect_s3-Leads (suc n) k h e =
      let more : ltb k 10 ≡ true = ground (arith, h) in
      Leads-bind IsDead (IsAt (connected k)) (λ err. IsAt (or_pausing k err)) (λ r. IsAt (tried r))
        (act (try_s3 platform env) attempt) (or_retry platform env (connect_s3 platform env n))
        (Leads-act (connected k) (or_pausing k) (try_s3 platform env) attempt
          (after_try_lem k more))
        (or_retry-Leads k (connect_s3 platform env n)
          (connect_s3-Leads n (suc k) (omega (arith, h))))

  reach_s3-Leads : Leads IsDead (IsAt (connected 0)) (reach_s3 platform env) (λ _. IsAt stored)
  unfolding reach_s3 connect_s3
  reach_s3-Leads =
      Leads-bind IsDead (IsAt (connected 0)) (λ r. IsAt (tried r)) (λ _. IsAt stored)
        (connect_s3 platform env 10 none) (check killed "Failed to connect to S3 after retries")
        (connect_s3-Leads 10 0 refl "")
        (Leads-check tried "Failed to connect to S3 after retries" (λ e. refl))

  make_bucket-Leads :
      (exists : Bool)
      → Leads IsDead (IsAt stored) (make_bucket platform env exists) (λ _. IsAt stored)
  unfolding make_bucket
  make_bucket-Leads true = λ p h. h
  make_bucket-Leads false =
      Leads-bind IsDead (IsAt stored) (λ err. IsAt (or_failing unshared err)) (λ _. IsAt stored)
        (act (platform.minio.make_bucket bucket_name) bucket_made)
        (λ err. check killed "Failed to create bucket" err >> share_bucket platform env)
        (Leads-act stored (or_failing unshared) (platform.minio.make_bucket bucket_name) bucket_made
          (λ err. refl))
        (λ err.
          Leads-then (or_failing unshared err) unshared (λ _. IsAt stored)
            (check killed "Failed to create bucket" err) (share_bucket platform env)
            (Leads-check (or_failing unshared) "Failed to create bucket" (λ e. refl) err)
            (λ p h. ap (λ u. advance u (policy_set (read_policy bucket_name))) h))

  ensure_bucket-Leads : Leads IsDead (IsAt stored) (ensure_bucket platform env) (λ _. IsAt stored)
  unfolding ensure_bucket
  ensure_bucket-Leads =
      Leads-bind IsDead (IsAt stored) (λ _. IsAt stored) (λ _. IsAt stored)
        (ask (platform.minio.bucket_exists bucket_name)) (make_bucket platform env) (λ p h. h)
        make_bucket-Leads

  reach_redis-Leads : Leads IsDead (IsAt stored) (reach_redis platform env) (λ _. IsAt reachable)
  unfolding reach_redis
  reach_redis-Leads = Leads-checked stored reachable _ pinged _ (λ err. refl)

  pub prepare-Leads : Leads IsDead (IsAt fresh) (prepare platform env) (λ _. IsAt reachable)
  prepare-Leads =
      let redis = reach_redis platform env in
      let bucket = ensure_bucket platform env >> redis in
      let s3 = reach_s3 platform env >> bucket in
      let database = open_database platform env >> s3 in
      let end = λ (_ : Unit {0}). IsAt reachable in
      Leads-then fresh migrated end (migrate platform env) database migrate-Leads (
        Leads-then migrated (connected 0) end (open_database platform env) s3 open_database-Leads (
          Leads-then (connected 0) stored end (reach_s3 platform env) bucket reach_s3-Leads (
            Leads-then stored stored end (ensure_bucket platform env) redis ensure_bucket-Leads
              reach_redis-Leads)))
