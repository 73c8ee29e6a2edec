-- ===== src/Rest/Sessions.antt =====
-- src/internal/transport/rest/session_handler.go: refresh tokens and their sessions.
pub mod Table
pub mod Rotation
pub mod Created
use go_service_bao_fight.Base.{ℕ, ◌+◌, ◌*◌, String, Option, none, some, if◌then◌else◌}
use go_service_bao_fight.Base.Json.{Json, num, str, obj, null, end, field}
use go_service_bao_fight.Effects.{
  GoError, session_row, M, pure, ◌>>=◌, ◌>>◌, call, Create, Echo, Kafka, KafkaMessage, reply,
  publish, insert, error_body,
}
use go_service_bao_fight.Models.{Uuid, Time, Session, zero_time, unix, minute, hour}
use go_service_bao_fight.Models.Codec.{Codec}
use go_service_bao_fight.Models.Topics.{logout as logout_topic}
use go_service_bao_fight.Outside.{Host}

-- The table of sessions, at the calls that the handlers make. `find` is `First` of the row with this
-- token that expires after the given time, and none on any error.
pub record Sessions (W : Type 0) : Type 0 where
  pub create : Create W Session
  pub find : String → Time → W → Option Session × W
  pub delete : Session → W → Option GoError × W
  pub delete_token : String → W → Option GoError × W

-- What a request tells of its client.
pub record ClientInfo : Type 0 where
  pub user_agent : String
  pub real_ip : String

-- What `createSession` returns.
pub record Tokens : Type 0 where
  pub access : String
  pub refresh : String
  pub err : Option GoError

-- `map[string]string{"access_token": at, "refresh_token": rt}`
abbrev pub tokens_body : Tokens → Json
tokens_body tokens =
    obj (field "access_token" (str tokens.access) (field "refresh_token" (str tokens.refresh) end))

module _ {W B : Type 0} (host : Host W) (c : Codec B) (sign : Json → String)
    (sessions : Sessions W) where
  -- `sign` makes an access token of its claims (golang-jwt with the secret of the environment).
  unfoldable pub create_session : ClientInfo → Uuid → M W B Tokens
  create_session client user = do
    issued ← call host.now
    let at = sign (
        obj (
          field "exp" (num (unix (issued + 15 * minute)))
            (field "role" (str "user") (field "user_id" (str (c.uuid_text user)) end))))
    token ← call host.new_uuid
    id ← call host.new_uuid
    now ← call host.now
    (err, _) ← insert sessions.create session_row (record {
      id = id;
      user_id = user;
      refresh_token = c.uuid_text token;
      user_agent = client.user_agent;
      client_ip = client.real_ip;
      expires_at = now + 24 * 30 * hour;
      created_at = zero_time;
    })
    elim err [
      | some e ↦ pure (record { access = ""; refresh = ""; err = some e })
      | none ↦ pure (record { access = at; refresh = c.uuid_text token; err = none })
    ]

  module _ (echo : Echo W) where
    -- The new tokens of a session that was found; the error of its `Delete` is dropped.
    unfoldable pub rotate : ClientInfo → Session → M W B (Option GoError)
    rotate client session = do
      call (sessions.delete session)
      tokens ← create_session client session.user_id
      elim tokens.err [
        | some e ↦ reply echo 500 (error_body "could not refresh")
        | none ↦ reply echo 200 (tokens_body tokens)
      ]

    -- `Refresh`; `body` is the token that `c.Bind` has read, if it could.
    unfoldable pub refresh : ClientInfo → Option String → M W B (Option GoError)
    refresh client none = reply echo 400 (error_body "invalid request")
    refresh client (some token) = do
      now ← call host.now
      found ← call (sessions.find token now)
      elim found [
        | none ↦ do
          call (sessions.delete_token token)
          reply echo 401 (error_body "session expired or invalid")
        | some session ↦ rotate client session
      ]

    -- `Logout`; the error of `c.Bind` is dropped, and `token` is "" then. The error of the write to
    -- Kafka is dropped too.
    unfoldable pub logout : Kafka W B → String → M W B (Option GoError)
    logout kafka token = do
      err ← call (sessions.delete_token token)
      elim err [
        | some e ↦ reply echo 500 (error_body "failed to logout")
        | none ↦ do
          publish kafka (record {
            topic = logout_topic;
            key = "";
            value =
                c.json_text
                  (obj (field "event" (str "session_terminated") (field "token" (str token) end)));
          })
          reply echo 204 null
      ]
