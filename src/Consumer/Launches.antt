-- ===== src/Consumer/Launches.antt =====
-- Which workers the consumer has started when it ends (src/cmd/app/consumer/main.go).
use go_service_bao_fight.Base.{
  ℕ, zero, suc, String, ◌≡◌, refl, sym, ap, ◌∙◌, ◌⊎◌, inl, inr, Bool, true, false, Option, none,
  some, List, [], ◌∷◌, ◌++◌, append_assoc, append-nil, Bool-cases, if◌then◌else◌,
}
use mathlib.Core.Path.{subst}
use go_service_bao_fight.Base.Texts.{split_commas}
use go_service_bao_fight.Effects.{GoError}
use go_service_bao_fight.Config.{Environment, os_getenv}
use go_service_bao_fight.Api.{enabled}
use go_service_bao_fight.Api.Flags
use go_service_bao_fight.Program.{pure, ◌>>=◌, ◌>>◌, act, check, Outcome, Leads, Leads-bind}
use go_service_bao_fight.Consumer.{
  Start, user_saver, message_saver, reaction_processor, workers, Launch, Event, migrations,
  connection, launched, pinged, signalled, waited, killed, Platform, kafka_broker, start_from,
  start, migrate, open_database, start_users, start_messages, start_reactions, stop, main,
}

-- The workers that a history has started, the oldest first.
abbrev pub launches : List Event → List Launch
launches [] = []
launches (launched l ∷ es) = launches es ++ l ∷ []
launches (_ ∷ es) = launches es

-- The goroutines of one call of `start`, numbered, and of several.
abbrev pub numbered : Start → String → ℕ → ℕ → List Launch
numbered s broker zero i = []
numbered s broker (suc n) i =
    record { start = s; broker = broker; id = i } ∷ numbered s broker n (suc i)

abbrev pub goroutines : String → List Start → List Launch
goroutines broker [] = []
goroutines broker (s ∷ ss) = numbered s broker s.routines 0 ++ goroutines broker ss

goroutines-append :
    (broker : String) (ss ts : List Start)
    → goroutines broker (ss ++ ts) ≡ goroutines broker ss ++ goroutines broker ts
goroutines-append broker [] ts = refl
goroutines-append broker (s ∷ ss) ts =
    ap (λ ls. numbered s broker s.routines 0 ++ ls) (goroutines-append broker ss ts)
    ∙ sym (
        append_assoc (numbered s broker s.routines 0) (goroutines broker ss) (goroutines broker ts))

-- The workers that do not need Redis, which are started first.
abbrev pub early : List String → List Start
early services =
    (if enabled services Flags.user_register then user_saver ∷ [] else [])
    ++ (if enabled services Flags.send_message then message_saver ∷ [] else [])

-- `Fatal` came before any worker, or for Redis, when the early workers were already running.
abbrev pub IsKilled : List String → String → List Event → Type 0
IsKilled services broker es =
    (launches es ≡ [])
    ⊎ ((e : GoError) × (rest : List Event) × (es
          ≡ killed "Redis not reachable" ∷ pinged (some e) ∷ rest)
        × (launches es ≡ goroutines broker (early services)))

-- A signal has come and every worker has returned, and they were those of the chosen services.
abbrev pub IsDone : List String → String → List Event → Type 0
IsDone services broker es =
    (launches es ≡ goroutines broker (workers services))
    × (rest : List Event) × (es ≡ waited ∷ signalled ∷ rest)

abbrev Has : List Launch → List Event → Type 0
Has ls es = launches es ≡ ls

module _ {W : Type 0} (D : List Event → Type 0) where
  start_from-Leads :
      (s : Start) (broker : String) (n i : ℕ) (ls : List Launch)
      → Leads D (Has ls) (start_from {W = W} s broker n i) (λ _. Has (ls ++ numbered s broker n i))
  unfolding start_from
  start_from-Leads s broker zero i ls p h = h ∙ sym (append-nil ls)
  start_from-Leads s broker (suc n) i ls p h =
      let l : Launch = record { start = s; broker = broker; id = i } in
      subst
        (λ all.
          Outcome D (λ _. Has all)
            (start_from s broker n (suc i) (record p { events = launched l ∷ p.events })))
        (append_assoc ls (l ∷ []) (numbered s broker n (suc i)))
        (start_from-Leads s broker n (suc i) (ls ++ l ∷ [])
          (record p { events = launched l ∷ p.events }) (ap (λ x. x ++ l ∷ []) h))

  -- `if enabled(service) { start(...) }`, where `more` is what starts after it.
  start-Leads :
      (b : Bool) (s : Start) (broker : String) (ls : List Launch)
      → Leads D
          (Has ls)
          (if b then start {W = W} s broker else pure tt)
          (λ _. Has (ls ++ goroutines broker (if b then s ∷ [] else [])))
  unfolding start
  start-Leads true s broker ls p h =
      rw (append-nil (numbered s broker s.routines 0))
        (start_from-Leads s broker s.routines 0 ls p h)
  start-Leads false s broker ls p h = h ∙ sym (append-nil ls)

module _ {W : Type 0} (platform : Platform W) (env : Environment) (services : List String) where
  abbrev broker : String
  broker = kafka_broker env

  abbrev Killed : List Event → Type 0
  Killed = IsKilled services broker

  -- A call without a worker before it, whose error is fatal.
  checked-Leads :
      (f : W → Option GoError × W) (event : Option GoError → Event) (text : String)
      → ((err : Option GoError) (es : List Event) → launches (event err ∷ es) ≡ launches es)
      → Leads Killed (Has []) (act f event >>= check killed text) (λ _. Has [])
  checked-Leads f event text k =
      Leads-bind Killed (Has []) (λ _. Has []) (λ _. Has []) (act f event) (check killed text)
        (λ p h. k _ p.events ∙ h) ended
    where
      ended :
          (err : Option GoError)
          → Leads Killed (Has []) (check {W = W} killed text err) (λ _. Has [])
      ended none p h = h
      ended (some e) p h = inl h

  migrate-Leads : Leads Killed (Has []) (migrate platform env) (λ _. Has [])
  unfolding migrate
  migrate-Leads = checked-Leads _ migrations "Failed to run migrations" (λ err es. refl)

  open_database-Leads : Leads Killed (Has []) (open_database platform env) (λ _. Has [])
  unfolding open_database
  open_database-Leads = checked-Leads _ connection "Database connection failed" (λ err es. refl)

  asked-Leads :
      (err : Option GoError) (ls : List Launch)
      → ls ≡ goroutines broker (early services)
      → Leads Killed
          (λ es. (rest : List Event) × (es ≡ pinged err ∷ rest) × Has ls es)
          (check {W = W} killed "Redis not reachable" err >> start reaction_processor broker)
          (λ _. Has (ls ++ goroutines broker (reaction_processor ∷ [])))
  asked-Leads none ls e p (rest, q, h) = start-Leads Killed true reaction_processor broker ls p h
  asked-Leads (some x) ls e p (rest, q, h) =
      inr (x, rest, ap (λ es. killed "Redis not reachable" ∷ es) q, h ∙ e)

  start_reactions-Leads :
      (ls : List Launch)
      → ls ≡ goroutines broker (early services)
      → Leads Killed (Has ls) (start_reactions platform env services) (λ _. Has (
          ls
          ++ goroutines broker
              (if enabled services Flags.reaction_worker then reaction_processor ∷ [] else [])))
  unfolding start_reactions
  start_reactions-Leads ls e p h = elim (Bool-cases (enabled services Flags.reaction_worker)) [
    | inl b ↦ rw b (
        asked-Leads (platform.ping (os_getenv env "REDIS_HOST") p.world).0 ls e
          (record {
            world = (platform.ping (os_getenv env "REDIS_HOST") p.world).1;
            events = pinged (platform.ping (os_getenv env "REDIS_HOST") p.world).0 ∷ p.events;
          })
          (p.events, refl, h))
    | inr b ↦ rw b (h ∙ sym (append-nil ls))
  ]

  abbrev users : List Start
  users = if enabled services Flags.user_register then user_saver ∷ [] else []

  abbrev messages : List Start
  messages = if enabled services Flags.send_message then message_saver ∷ [] else []

  abbrev reactions : List Start
  reactions = if enabled services Flags.reaction_worker then reaction_processor ∷ [] else []

  goroutines-workers :
      (goroutines broker users ++ goroutines broker messages) ++ goroutines broker reactions
      ≡ goroutines broker (workers services)
  unfolding workers
  goroutines-workers =
      ap (λ ls. ls ++ goroutines broker reactions) (sym (goroutines-append broker users messages))
      ∙ sym (goroutines-append broker (early services) reactions)

  stop-Leads :
      (ls : List Launch)
      → ls ≡ goroutines broker (workers services)
      → Leads Killed (Has ls) (stop platform env) (λ _. IsDone services broker)
  unfolding stop
  stop-Leads ls e p h = (h ∙ e, p.events, refl)

  -- From the first worker on.
  started-Leads :
      Leads Killed
        (Has [])
        (start_users platform env services
          >> (start_messages platform env services
              >> (start_reactions platform env services >> stop platform env)))
        (λ _. IsDone services broker)
  unfolding start_users start_messages
  started-Leads =
      let end = λ (_ : Unit {0}). IsDone services broker in
      let both = goroutines broker users ++ goroutines broker messages in
      let last = start_reactions platform env services >> stop platform env in
      let messages_on = start_messages platform env services >> last in
      Leads-bind Killed (Has []) (λ _. Has (goroutines broker users)) end
        (start_users platform env services) (λ _. messages_on)
        (start-Leads Killed (enabled services Flags.user_register) user_saver broker [])
        (λ _.
          Leads-bind Killed (Has (goroutines broker users)) (λ _. Has both) end
            (start_messages platform env services) (λ _. last)
            (start-Leads Killed (enabled services Flags.send_message) message_saver broker
              (goroutines broker users))
            (λ _.
              Leads-bind Killed (Has both) (λ _. Has (both ++ goroutines broker reactions)) end
                (start_reactions platform env services) (λ _. stop platform env)
                (start_reactions-Leads both (sym (goroutines-append broker users messages)))
                (λ _. stop-Leads (both ++ goroutines broker reactions) goroutines-workers)))

-- The history of a consumer, from nothing, for any libraries, environment and flag. If it has
-- exited, a signal came, every worker returned, and the workers were the goroutines of the chosen
-- services, in the order of the code and numbered from 0. If `Fatal` ended it, then either no worker
-- had been started, or Redis did not answer, and all workers of the users and the messages that were
-- chosen had already been started.
pub main-IsDone :
    {W : Type 0} (platform : Platform W) (env : Environment) (mode : String) (w : W)
    → Outcome
        (IsKilled (split_commas mode) (kafka_broker env))
        (λ _. IsDone (split_commas mode) (kafka_broker env))
        (main platform env mode (record { world = w; events = [] }))
unfolding main
main-IsDone platform env mode w =
    let services = split_commas mode in
    let end = λ (_ : Unit {0}). IsDone services (kafka_broker env) in
    let killed_at = IsKilled services (kafka_broker env) in
    let rest =
      start_users platform env services
      >> (start_messages platform env services
          >> (start_reactions platform env services >> stop platform env)) in
    Leads-bind killed_at (Has []) (λ _. Has []) end (migrate platform env)
      (λ _. open_database platform env >> rest) (migrate-Leads platform env services)
      (λ _.
        Leads-bind killed_at (Has []) (λ _. Has []) end (open_database platform env) (λ _. rest)
          (open_database-Leads platform env services) (λ _. started-Leads platform env services))
      (record { world = w; events = [] }) refl
