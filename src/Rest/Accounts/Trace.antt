-- ===== src/Rest/Accounts/Trace.antt =====
-- What one call of `RegisterUser` does (src/internal/transport/rest/register_user_handler.go).
use go_service_bao_fight.Base.{
  ℕ, ◌≤◌, String, ◌≡◌, ◌≢◌, ◌∙◌, ap, refl, ◌||◌, Option, none, some, List, [], ◌∷◌, ◌++◌, arith,
  Option-cases, Bool-cases, inl, inr, ltb, str_eq,
}
use go_service_bao_fight.Base.Json.{Json}
use go_service_bao_fight.Base.Texts.{byte_len, contains}
use go_service_bao_fight.Effects.{
  GoError, Effect, replied, inserted, published, session_row, user_row, Env, call, insert, Create,
  Echo, Kafka, KafkaMessage, error_body,
}
use go_service_bao_fight.Models.{User, Session, nil_uuid, zero_time, user_before_create}
use go_service_bao_fight.Models.Codec.{Codec}
use go_service_bao_fight.Models.Topics.{user_register}
use go_service_bao_fight.Outside.{Host}
use go_service_bao_fight.Rest.Sessions.{Sessions, ClientInfo, Tokens, create_session}
use go_service_bao_fight.Rest.Sessions.Created.{FillsCreated, create_session-IsSessionMade}
use go_service_bao_fight.Rest.Accounts.{
  Credentials, Users, Bcrypt, account_body, user_json, before_create, announce_user,
  register_checked, register_user,
}

abbrev pub user_announcement : {B : Type 0} → Codec B → String → User → KafkaMessage B
user_announcement c email u = record {
  topic = user_register;
  key = email;
  value = c.json_text (user_json c u);
}

-- The calls of one run, the newest first, by how far it came. `P` holds of the user.
pub data RegisterTrace {B : Type 0} (c : Codec B) (P : User → Type 0)
    : List (Effect B) → Type 0 where
  refused : (status : ℕ) (body : Json) → status ≢ 201 → RegisterTrace c P (replied status body ∷ [])
  unsaved :
      (status : ℕ) (body : Json) (u : User) (e : GoError)
      → P u
      → status ≢ 201
      → RegisterTrace c P (replied status body ∷ inserted (user_row u) (some e) ∷ [])
  no_session :
      (body : Json) (u : User) (s : Session) (e : GoError)
      → P u
      → RegisterTrace c P
          (replied 500 body ∷ inserted (session_row s) (some e) ∷ inserted (user_row u) none ∷ [])
  unsent :
      (body : Json) (u : User) (s : Session) (email : String) (e : GoError)
      → P u
      → s.user_id ≡ u.id
      → RegisterTrace c P (
          replied 500 body
          ∷ published (user_announcement c email u) (some e)
          ∷ inserted (session_row s) none
          ∷ inserted (user_row u) none
          ∷ [])
  registered :
      (u : User) (s : Session) (tokens : Tokens) (email : String)
      → P u
      → s.user_id ≡ u.id
      → tokens.refresh ≡ s.refresh_token
      → RegisterTrace c P (
          replied 201 (account_body c tokens u.id)
          ∷ published (user_announcement c email u) none
          ∷ inserted (session_row s) none
          ∷ inserted (user_row u) none
          ∷ [])

abbrev pub RegisterTraced : {W B : Type 0} → Codec B → (User → Type 0) → Env W B → Env W B → Type 0
RegisterTraced {W} {B} c P env env' =
    (added : List (Effect B)) × (env'.log ≡ added ++ env.log) × RegisterTrace c P added

-- The row has the address of the request and the hash of its password, which has 8 bytes or more.
pub record IsNewUser {W : Type 0} (bcrypt : Bcrypt W) (w : W) (body : Option Credentials) (u : User)
    : Type 0 where
  pub input : Credentials
  pub asked : body ≡ some input
  pub address : u.email ≡ input.email
  pub hashed : (bcrypt.hash input.password w).0 ≡ some u.password_hash
  pub long : 8 ≤ byte_len input.password

-- gorm's `Create` fills in the times alone.
abbrev pub FillsTimes : {W : Type 0} → Create W User → Type 0
FillsTimes {W} create =
    (u : User) (w : W)
    → (create u w).0.1 ≡ record u {
      created_at = (create u w).0.1.created_at;
      updated_at = (create u w).0.1.updated_at;
    }

module _ {W B : Type 0} (host : Host W) where
  -- The hook makes an id and nothing else.
  before_create_lem :
      (u : User) (env : Env W B)
      → ((before_create {B = B} host u env).0.email ≡ u.email)
        × ((before_create {B = B} host u env).0.password_hash ≡ u.password_hash)
        × ((before_create {B = B} host u env).1.log ≡ env.log)
  unfolding before_create user_before_create
  before_create_lem u env = ground arith

module _ {W B : Type 0} (host : Host W) (c : Codec B) (sign : Json → String) (sessions : Sessions W)
    (echo : Echo W) (users : Users W) (bcrypt : Bcrypt W) (kafka : Kafka W B)
    (fills : FillsCreated sessions.create) (times : FillsTimes users.create) where
  -- `before` are the calls of the run so far.
  announce_user-RegisterTraced :
      (P : User → Type 0) (client : ClientInfo) (u : User) (email : String) (before env : Env W B)
      → env.log ≡ inserted (user_row u) none ∷ before.log
      → P u
      → RegisterTraced c P before
          (announce_user host c sign sessions echo kafka client u email env).1
  unfolding announce_user
  announce_user-RegisterTraced P client u email before env start ok =
      let made = create_session-IsSessionMade host c sign sessions client u.id env fills in
      let tokens = (create_session host c sign sessions client u.id env).0 in
      let env₁ = (create_session host c sign sessions client u.id env).1 in
      let note = user_announcement c email u in
      elim (Option-cases tokens.err) [
        | inr (e, q) ↦ (
          replied 500 (error_body "session error")
              ∷ inserted (session_row made.made) (some e)
              ∷ inserted (user_row u) none
              ∷ [],
          ground (arith, made.logged, start),
          no_session _ u made.made e ok,
        )
        | inl q ↦ elim (Option-cases (kafka.write note env₁.world).0) [
          | inr (e, r) ↦ (
            replied 500 (error_body e)
                ∷ published note (some e)
                ∷ inserted (session_row made.made) none
                ∷ inserted (user_row u) none
                ∷ [],
            ground (arith, made.logged, start),
            unsent _ u made.made email e ok made.owner,
          )
          | inl r ↦ (
            replied 201 (account_body c tokens u.id)
                ∷ published note none
                ∷ inserted (session_row made.made) none
                ∷ inserted (user_row u) none
                ∷ [],
            ground (arith, made.logged, start),
            registered u made.made tokens email ok made.owner (ground (arith, made.token)),
          )
        ]
      ]

  register_checked-RegisterTraced :
      (client : ClientInfo) (input : Credentials) (env : Env W B)
      → 8 ≤ byte_len input.password
      → RegisterTraced c
          (IsNewUser bcrypt env.world (some input))
          env
          (register_checked host c sign sessions echo users bcrypt kafka client input env).1
  unfolding register_checked
  register_checked-RegisterTraced client input env long =
      let env₁ = (call (bcrypt.hash input.password) env).1 in
      elim (Option-cases (bcrypt.hash input.password env.world).0) [
        | inl q ↦ (
          replied 500 (error_body "failed to secure password") ∷ [],
          ground arith,
          refused 500 _ (omega arith),
        )
        | inr (hash, q) ↦
            let blank : User = record {
              id = nil_uuid;
              email = input.email;
              password_hash = hash;
              created_at = zero_time;
              updated_at = zero_time;
            } in
            let new = (before_create host blank env₁).0 in
            let env₂ = (before_create host blank env₁).1 in
            let lem = before_create_lem host blank env₁ in
            let u = (users.create new env₂.world).0.1 in
            let err = (users.create new env₂.world).0.0 in
            let env₃ = (insert users.create user_row new env₂).1 in
            let filled = times new env₂.world in
            let ok : IsNewUser bcrypt env.world (some input) u = record {
              input = input;
              asked = refl;
              address = ap (λ x. x.email) filled ∙ lem.0;
              hashed = rw (ap (λ x. x.password_hash) filled ∙ lem.1) q;
              long = long;
            } in
            elim (Option-cases err) [
              | inl r ↦
                  let (added, e, t) =
                    announce_user-RegisterTraced (IsNewUser bcrypt env.world (some input)) client u
                      input.email env env₃ (ground (arith, lem.2)) ok in
                  (added, ground (arith, e), t)
              | inr (x, r) ↦ elim (Bool-cases (contains x "duplicate key")) [
                | inl d ↦ (
                  replied 409 (error_body "email already taken")
                      ∷ inserted (user_row u) (some x)
                      ∷ [],
                  ground (arith, lem.2),
                  unsaved 409 _ u x ok (omega arith),
                )
                | inr d ↦ (
                  replied 500 (error_body "database error") ∷ inserted (user_row u) (some x) ∷ [],
                  ground (arith, lem.2),
                  unsaved 500 _ u x ok (omega arith),
                )
              ]
            ]
      ]

-- Whatever the request and whatever the database, bcrypt and Kafka answer, a call of `RegisterUser`
-- makes the calls of one of five traces: one refusal; a user row that the database refused; a user
-- row, and a session that it refused; a user row, its session, and a message that Kafka refused; or
-- all three and a 201 with the token of the session. Only the last is answered by 201. A user row
-- is tried only for a password of 8 bytes or more, with its hash and the address of the request,
-- the session is the user's, and the message holds that row.
pub register_user_traced :
    {W B : Type 0} (host : Host W) (c : Codec B) (sign : Json → String) (sessions : Sessions W)
    (echo : Echo W) (users : Users W) (bcrypt : Bcrypt W) (kafka : Kafka W B) (client : ClientInfo)
    (body : Option Credentials) (env : Env W B)
    → FillsCreated sessions.create
    → FillsTimes users.create
    → RegisterTraced c
        (IsNewUser bcrypt env.world body)
        env
        (register_user host c sign sessions echo users bcrypt kafka client body env).1
unfolding register_user
register_user_traced host c sign sessions echo users bcrypt kafka client none env fills times =
    (replied 400 (error_body "failed to parse json") ∷ [], refl, refused 400 _ (omega arith))
register_user_traced host c sign sessions echo users bcrypt kafka client (some input) env fills
      times =
    elim (Bool-cases (str_eq input.email "" || str_eq input.password "")) [
      | inl q ↦ (
        replied 400 (error_body "email and password are required") ∷ [],
        rw q refl,
        refused 400 _ (omega arith),
      )
      | inr q ↦ elim (Bool-cases (ltb (byte_len input.password) 8)) [
        | inl r ↦ (
          replied 400 (error_body "the password must not be shorter than 8 characters") ∷ [],
          rw q (rw r refl),
          refused 400 _ (omega arith),
        )
        | inr r ↦ rw q (
            rw r (
              register_checked-RegisterTraced host c sign sessions echo users bcrypt kafka fills
                times client input env (ground arith)))
      ]
    ]
