-- ===== src/Producer/Lifetime.antt =====
-- The whole life of a producer (src/cmd/app/producer/main.go).
use go_service_bao_fight.Base.{
  String, ◌≡◌, refl, ap, ◌∙◌, Option, List, [], ◌∷◌, if◌then◌else◌, inl, inr, Bool-cases,
}
use go_service_bao_fight.Base.Texts.{split_commas}
use go_service_bao_fight.Effects.{GoError}
use go_service_bao_fight.Config.{Environment, os_getenv}
use go_service_bao_fight.Api.{enabled, new_router}
use go_service_bao_fight.Api.Flags.{web_socket}
use go_service_bao_fight.Program.{◌>>=◌, ◌>>◌, Outcome, Leads, Leads-bind}
use go_service_bao_fight.Producer.{
  Platform, Event, watching, topics_ensured, listening, signalled, shut_down, after_dial,
  start_watcher, ensure_topics, serve, prepare, main,
}
use go_service_bao_fight.Producer.Startup.{
  advance, stage, fresh, reachable, exited, IsDead, IsAt, Leads-then, prepare-Leads,
}

-- The watcher of the sockets is started only for the service "web_socket".
abbrev pub watched : List String → String → List Event → List Event
watched services broker es = if enabled services web_socket then watching broker ∷ es else es

-- A history that ends with the shutdown: the server came up last, and all before it was reachable.
abbrev pub Finished : List String → String → Option GoError → List Event → Type 0
Finished services broker r es =
    (stage es ≡ exited)
    × (t : Option GoError) × (before : List Event) × (es
        ≡ shut_down r
          ∷ signalled
          ∷ listening (new_router services) ":8080"
          ∷ topics_ensured t
          ∷ watched services broker before)
    × (stage before ≡ reachable)

stage-watched :
    (services : List String) (broker : String) (es : List Event)
    → stage es ≡ reachable
    → stage (watched services broker es) ≡ reachable
stage-watched services broker es h = elim (Bool-cases (enabled services web_socket)) [
  | inl e ↦ rw e (ap (λ s. advance s (watching broker)) h)
  | inr e ↦ rw e h
]

module _ {W : Type 0} (platform : Platform W) (env : Environment) (services : List String) where
  abbrev broker : String
  broker = os_getenv env "KAFKA_BROKER"

  abbrev IsWatched : List Event → Type 0
  IsWatched es =
      (before : List Event) × (es ≡ watched services broker before) × (stage before ≡ reachable)

  abbrev HasTopics : Option GoError → List Event → Type 0
  HasTopics t es =
      (before : List Event) × (es ≡ topics_ensured t ∷ watched services broker before)
      × (stage before ≡ reachable)

  start_watcher-Leads :
      Leads IsDead (IsAt reachable) (start_watcher platform env services) (λ _. IsWatched)
  unfolding start_watcher
  start_watcher-Leads p h = elim (Bool-cases (enabled services web_socket)) [
    | inl e ↦ rw e (p.events, rw e refl, h)
    | inr e ↦ rw e (p.events, rw e refl, h)
  ]

  ensure_topics-Leads : Leads IsDead IsWatched (ensure_topics platform env broker) HasTopics
  unfolding ensure_topics
  ensure_topics-Leads p (before, e, h) =
      let t = (after_dial platform env (platform.dial broker p.world)).0 in
      (before, ap (λ es. topics_ensured t ∷ es) e, h)

  serve-Leads :
      (t : Option GoError)
      → Leads IsDead
          (HasTopics t)
          (serve platform env (new_router services))
          (Finished services broker)
  unfolding serve
  serve-Leads t p (before, e, h) =
      let r = (platform.shutdown 10 (platform.await_signal p.world)).0 in
      let server = listening (new_router services) ":8080" in
      let whole = ap (λ es. shut_down r ∷ signalled ∷ server ∷ es) e in
      let up = ap (λ s. advance s (topics_ensured t)) (stage-watched services broker before h) in
      (
        ap stage whole ∙ ap (λ s. advance (advance (advance s server) signalled) (shut_down r)) up,
        t,
        before,
        whole,
        h,
      )

-- The history of a producer, from nothing, for any libraries, environment and flag. Either the
-- process was ended by `Fatal` in a place where the order of the start allows it, so before any
-- server; or it has exited, the allowed order was kept to the end, and the server with the routes of
-- the chosen services was started after the migrations, the database, S3 with its bucket and Redis
-- had answered without an error, in this order, with at most ten attempts at S3, after the watcher
-- if its service was chosen and after the topics.
pub main-Finished :
    {W : Type 0} (platform : Platform W) (env : Environment) (mode : String) (w : W)
    → Outcome IsDead
        (Finished (split_commas mode) (os_getenv env "KAFKA_BROKER"))
        (main platform env mode (record { world = w; events = [] }))
unfolding main
main-Finished platform env mode w =
    let services = split_commas mode in
    let broker = os_getenv env "KAFKA_BROKER" in
    let server = serve platform env (new_router services) in
    let tail = ensure_topics platform env broker >>= λ _. server in
    Leads-then fresh reachable (Finished services broker) (prepare platform env)
      (start_watcher platform env services >> tail) (prepare-Leads platform env)
      (Leads-bind IsDead (IsAt reachable) (λ _. IsWatched platform env services)
        (Finished services broker) (start_watcher platform env services) (λ _. tail)
        (start_watcher-Leads platform env services)
        (λ _.
          Leads-bind IsDead (IsWatched platform env services) (HasTopics platform env services)
            (Finished services broker) (ensure_topics platform env broker) (λ _. server)
            (ensure_topics-Leads platform env services) (serve-Leads platform env services)))
      (record { world = w; events = [] }) refl
