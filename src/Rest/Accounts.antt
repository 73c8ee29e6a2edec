-- ===== src/Rest/Accounts.antt =====
-- src/internal/transport/rest/login_user_handler.go and register_user_handler.go.
pub mod Trace
pub mod Login
use go_service_bao_fight.Base.{
  ℕ, String, Bool, Option, none, some, ◌||◌, ltb, ◌==◌, str_eq, if◌then◌else◌,
}
use go_service_bao_fight.Base.Json.{Json, str, obj, end, field}
use go_service_bao_fight.Base.Texts.{byte_len, contains}
use go_service_bao_fight.Effects.{
  GoError, user_row, M, pure, ◌>>=◌, call, Create, Echo, Kafka, reply, publish, insert, error_body,
}
use go_service_bao_fight.Models.{Uuid, nil_uuid, zero_time, User, user_before_create}
use go_service_bao_fight.Models.Codec.{Codec}
use go_service_bao_fight.Models.Topics.{user_register}
use go_service_bao_fight.Outside.{Host}
use go_service_bao_fight.Rest.Sessions.{Sessions, ClientInfo, Tokens, create_session}

-- The body of both requests.
pub record Credentials : Type 0 where
  pub email : String
  pub password : String

-- The table of users; `find_email` is none on any error.
pub record Users (W : Type 0) : Type 0 where
  pub create : Create W User
  pub find_email : String → W → Option User × W

-- bcrypt. `hash` is none on an error; `matches` compares a hash and a password.
pub record Bcrypt (W : Type 0) : Type 0 where
  pub hash : String → W → Option String × W
  pub matches : String → String → Bool

-- `e.Validator`, which may be nil: `c.Validate` then returns echo's error that none is registered.
abbrev pub Validator : Type 0
Validator = Option (Credentials → Option GoError)

abbrev pub validate : Validator → Credentials → Option GoError
validate none input = some "validator not registered"
validate (some v) input = v input

module _ {B : Type 0} (c : Codec B) where
  abbrev pub account_body : Tokens → Uuid → Json
  account_body tokens user = obj (
      field "access_token" (str tokens.access)
        (field "refresh_token" (str tokens.refresh) (field "user_id" (str (c.uuid_text user)) end)))

  abbrev pub user_json : User → Json
  user_json user = obj (
      field "ID" (str (c.uuid_text user.id)) (
        field "Email" (str user.email) (
          field "password" (str user.password_hash) (
            field "CreatedAt" (str (c.time_text user.created_at))
              (field "UpdatedAt" (str (c.time_text user.updated_at)) end)))))

module _ {W B : Type 0} (host : Host W) where
  -- gorm calls `BeforeCreate` of the new row; `uuid.New` is called for a nil id only.
  unfoldable pub before_create : User → M W B User
  unfolding user_before_create
  before_create user =
      if user.id == nil_uuid
      then (do fresh ← call host.new_uuid; pure (user_before_create fresh user))
      else pure user

module _ {W B : Type 0} (host : Host W) (c : Codec B) (sign : Json → String) (sessions : Sessions W)
    (echo : Echo W) where
  -- What follows once the user is known.
  unfoldable pub login_as : ClientInfo → User → M W B (Option GoError)
  login_as client user = do
    tokens ← create_session host c sign sessions client user.id
    elim tokens.err [
      | some e ↦ reply echo 500 (error_body "session error")
      | none ↦ reply echo 200 (account_body c tokens user.id)
    ]

  unfoldable pub login_found :
      Bcrypt W → ClientInfo → Credentials → Option User → M W B (Option GoError)
  login_found bcrypt client input none = reply echo 401 (error_body "invalid credentials")
  login_found bcrypt client input (some user) =
      if bcrypt.matches user.password_hash input.password
      then login_as client user
      else reply echo 401 (error_body "invalid credentials")

  -- `LoginUser`; `body` is what `c.Bind` has read, if it could.
  unfoldable pub login_user :
      Validator → Users W → Bcrypt W → ClientInfo → Option Credentials → M W B (Option GoError)
  login_user v users bcrypt client none = reply echo 400 (error_body "bad request")
  login_user v users bcrypt client (some input) = elim (validate v input) [
    | some e ↦ reply echo 400 (error_body "bad request")
    | none ↦ do found ← call (users.find_email input.email); login_found bcrypt client input found
  ]

  -- The user was created: the session, then the message. json.Marshal cannot fail on a User.
  unfoldable pub announce_user : Kafka W B → ClientInfo → User → String → M W B (Option GoError)
  announce_user kafka client user email = do
    tokens ← create_session host c sign sessions client user.id
    elim tokens.err [
      | some e ↦ reply echo 500 (error_body "session error")
      | none ↦ do
        sent ←
            publish kafka (record {
              topic = user_register;
              key = email;
              value = c.json_text (user_json c user);
            })
        elim sent [
          | some e ↦ reply echo 500 (error_body e)
          | none ↦ reply echo 201 (account_body c tokens user.id)
        ]
    ]

  unfoldable pub register_checked :
      Users W → Bcrypt W → Kafka W B → ClientInfo → Credentials → M W B (Option GoError)
  register_checked users bcrypt kafka client input = do
    hashed ← call (bcrypt.hash input.password)
    elim hashed [
      | none ↦ reply echo 500 (error_body "failed to secure password")
      | some hash ↦ do
        new ← before_create host (record {
          id = nil_uuid;
          email = input.email;
          password_hash = hash;
          created_at = zero_time;
          updated_at = zero_time;
        })
        (err, user) ← insert users.create user_row new
        elim err [
          | some e ↦
              if contains e "duplicate key"
              then reply echo 409 (error_body "email already taken")
              else reply echo 500 (error_body "database error")
          | none ↦ announce_user kafka client user input.email
        ]
    ]

  -- `RegisterUser`
  unfoldable pub register_user :
      Users W → Bcrypt W → Kafka W B → ClientInfo → Option Credentials → M W B (Option GoError)
  register_user users bcrypt kafka client none = reply echo 400 (error_body "failed to parse json")
  register_user users bcrypt kafka client (some input) =
      if str_eq input.email "" || str_eq input.password ""
      then reply echo 400 (error_body "email and password are required")
      else if ltb (byte_len input.password) 8
      then reply echo 400 (error_body "the password must not be shorter than 8 characters")
      else register_checked users bcrypt kafka client input
