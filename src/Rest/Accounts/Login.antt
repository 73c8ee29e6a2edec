-- ===== src/Rest/Accounts/Login.antt =====
-- What one call of `LoginUser` does (src/internal/transport/rest/login_user_handler.go).
use go_service_bao_fight.Base.{
  ℕ, String, ◌≡◌, ◌≢◌, refl, true, Option, none, some, List, [], ◌∷◌, ◌++◌, arith, Option-cases,
  Bool-cases, inl, inr,
}
use go_service_bao_fight.Base.Json.{Json}
use go_service_bao_fight.Effects.{
  GoError, Effect, replied, inserted, session_row, Env, call, Echo, error_body,
}
use go_service_bao_fight.Models.{User, Session}
use go_service_bao_fight.Models.Codec.{Codec}
use go_service_bao_fight.Outside.{Host}
use go_service_bao_fight.Rest.Sessions.{Sessions, ClientInfo, Tokens, create_session}
use go_service_bao_fight.Rest.Sessions.Created.{FillsCreated, create_session-IsSessionMade}
use go_service_bao_fight.Rest.Accounts.{
  Credentials, Users, Bcrypt, Validator, validate, account_body, login_as, login_found, login_user,
}

-- The calls of one run, the newest first: a refusal; a session that the database refused; or a
-- session and a 200 that carries its token. `P` holds of the user.
pub data LoginTrace {B : Type 0} (c : Codec B) (P : User → Type 0) : List (Effect B) → Type 0 where
  refused : (status : ℕ) (body : Json) → status ≢ 200 → LoginTrace c P (replied status body ∷ [])
  no_session :
      (body : Json) (u : User) (s : Session) (e : GoError)
      → P u
      → LoginTrace c P (replied 500 body ∷ inserted (session_row s) (some e) ∷ [])
  logged_in :
      (u : User) (s : Session) (tokens : Tokens)
      → P u
      → s.user_id ≡ u.id
      → tokens.refresh ≡ s.refresh_token
      → LoginTrace c P
          (replied 200 (account_body c tokens u.id) ∷ inserted (session_row s) none ∷ [])

abbrev pub LoginTraced : {W B : Type 0} → Codec B → (User → Type 0) → Env W B → Env W B → Type 0
LoginTraced {W} {B} c P env env' =
    (added : List (Effect B)) × (env'.log ≡ added ++ env.log) × LoginTrace c P added

-- The user has the address of the request, and the password of the request fits the stored hash.
pub record IsKnown {W : Type 0} (users : Users W) (bcrypt : Bcrypt W) (w : W)
    (body : Option Credentials) (u : User) : Type 0 where
  pub input : Credentials
  pub asked : body ≡ some input
  pub found : (users.find_email input.email w).0 ≡ some u
  pub matched : bcrypt.matches u.password_hash input.password ≡ true

module _ {W B : Type 0} (host : Host W) (c : Codec B) (sign : Json → String) (sessions : Sessions W)
    (echo : Echo W) (fills : FillsCreated sessions.create) (P : User → Type 0) where
  login_as-LoginTraced :
      (client : ClientInfo) (u : User) (env : Env W B)
      → P u
      → LoginTraced c P env (login_as host c sign sessions echo client u env).1
  unfolding login_as
  login_as-LoginTraced client u env ok =
      let made = create_session-IsSessionMade host c sign sessions client u.id env fills in
      let tokens = (create_session host c sign sessions client u.id env).0 in
      elim (Option-cases tokens.err) [
        | inr (e, q) ↦ (
          replied 500 (error_body "session error") ∷ inserted (session_row made.made) (some e) ∷ [],
          ground (arith, made.logged),
          no_session _ u made.made e ok,
        )
        | inl q ↦ (
          replied 200 (account_body c tokens u.id) ∷ inserted (session_row made.made) none ∷ [],
          ground (arith, made.logged),
          logged_in u made.made tokens ok made.owner (ground (arith, made.token)),
        )
      ]

-- Whatever the request, the validator, the database and bcrypt answer, a call of `LoginUser` makes
-- the calls of one of three traces: one refusal with a status other than 200; one session that the
-- database refused, and a 500; or one session of the user and a 200 whose refresh token is that of
-- the session. A session is tried only for a user who was found by the address of the request and
-- whose stored hash the password fits.
pub login_user_traced :
    {W B : Type 0} (host : Host W) (c : Codec B) (sign : Json → String) (sessions : Sessions W)
    (echo : Echo W) (v : Validator) (users : Users W) (bcrypt : Bcrypt W) (client : ClientInfo)
    (body : Option Credentials) (env : Env W B)
    → FillsCreated sessions.create
    → LoginTraced c
        (IsKnown users bcrypt env.world body)
        env
        (login_user host c sign sessions echo v users bcrypt client body env).1
unfolding login_user login_found
login_user_traced host c sign sessions echo v users bcrypt client none env fills =
    (replied 400 (error_body "bad request") ∷ [], refl, refused 400 _ (omega arith))
login_user_traced host c sign sessions echo v users bcrypt client (some input) env fills =
    let env₁ = (call (users.find_email input.email) env).1 in
    elim (Option-cases (validate v input)) [
      | inr (e, q) ↦
          (replied 400 (error_body "bad request") ∷ [], ground arith, refused 400 _ (omega arith))
      | inl q ↦ elim (Option-cases (users.find_email input.email env.world).0) [
        | inl r ↦ (
          replied 401 (error_body "invalid credentials") ∷ [],
          ground arith,
          refused 401 _ (omega arith),
        )
        | inr (u, r) ↦ elim (Bool-cases (bcrypt.matches u.password_hash input.password)) [
          | inr t ↦ (
            replied 401 (error_body "invalid credentials") ∷ [],
            ground arith,
            refused 401 _ (omega arith),
          )
          | inl t ↦
              let (added, e, trace) =
                login_as-LoginTraced host c sign sessions echo fills
                  (IsKnown users bcrypt env.world (some input)) client u env₁
                  (record { input = input; asked = refl; found = r; matched = t }) in
              (added, ground (arith, e), trace)
        ]
      ]
    ]
