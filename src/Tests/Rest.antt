-- ===== src/Tests/Rest.antt =====
-- The handlers of the API (src/internal/transport/rest), in memory.
use go_service_bao_fight.Models.{Session, hour}
use go_service_bao_fight.Models.Codec.{decode_map}
use go_service_bao_fight.Base.{
  ◌≡◌, refl, String, none, some, [], ◌∷◌, ◌+◌, ◌*◌, if◌then◌else◌, arith, str_eq,
}
use go_service_bao_fight.Base.Json.{Json, str, obj, end, field, decode_struct, key_is, get_key}
use go_service_bao_fight.Effects.{replied, inserted, session_row, Env, error_body}
use go_service_bao_fight.Rest.Auth.{UserValue, named_user, get_sender_id, token_claims, claimed_id}
use go_service_bao_fight.Rest.Auth.Outcomes.{IsRefused, get_sender_id_fails_open}
use go_service_bao_fight.Rest.Messages.{SendInput, send_message}
use go_service_bao_fight.Rest.Messages.Trace.{Traced, IsAuthorised, send_message-Traced}
use go_service_bao_fight.Rest.Messages.Unnamed.{IsAnsweredTwice, send_message_unnamed}
use go_service_bao_fight.Rest.Sessions.{ClientInfo, tokens_body, create_session, rotate, refresh}
use go_service_bao_fight.Rest.Sessions.Rotation.{refresh_once}
use go_service_bao_fight.Tests.World.{
  spell, codec, empty, quiet, host, echo, kafka, chats, create_message, sessions, row,
  sessions-IsSessionTable, sessions-IsTableApart, host-IsIssuer, issued, Memory,
}

abbrev token : UserValue
token = some (some (obj (field "Claims" (obj (field "user_id" (str "uu") end)) end)))

token-named : named_user token ≡ some "uu"
unfolding named_user token_claims claimed_id decode_struct key_is decode_map str_eq get_key
token-named = refl

abbrev input : SendInput
input = record { chat_id = "uuu"; text = "hello" }

get_sender_id_fails_open_example :
    ((get_sender_id echo none (quiet empty)).0 ≡ ("", none))
    × IsRefused (quiet empty) (get_sender_id echo none (quiet empty)).1
unfolding named_user
get_sender_id_fails_open_example =
    get_sender_id_fails_open echo none (quiet empty) (λ status body w. refl) refl

send_message-Traced_example :
    Traced codec
      (IsAuthorised codec chats empty "uu")
      (quiet empty)
      (send_message host codec echo kafka chats create_message token (some input) (quiet empty)).1
send_message-Traced_example =
    send_message-Traced host codec echo kafka chats create_message token "uu" (some input)
      (quiet empty) (λ m w. refl) token-named

no_token : named_user none ≡ none
unfolding named_user
no_token = refl

send_message_unnamed_example :
    IsAnsweredTwice
      (quiet empty)
      (send_message host codec echo kafka chats create_message none (some input) (quiet empty)).1
send_message_unnamed_example =
    send_message_unnamed host codec echo kafka chats create_message none (some input) (quiet empty)
      (λ status body w. refl) refl no_token

abbrev browser : ClientInfo
browser = record { user_agent = "browser"; real_ip = "::1" }

-- The table holds one session; its token is spelled like the first id.
abbrev held : Session
held = record {
  id = 5;
  user_id = 6;
  refresh_token = "u";
  user_agent = "browser";
  client_ip = "::1";
  expires_at = 100;
  created_at = 0;
}

abbrev signed_in : Memory
signed_in = record empty { sessions = λ t. if str_eq t "u" then some held else none }

abbrev signer : Json → String
signer j = "signed"

-- The first call, which rotates the session.
abbrev rotated : Env Memory Json
rotated = (refresh host codec signer sessions echo browser (some "u") (quiet signed_in)).1

rotated-log :
    rotated.log
    ≡ replied 200 (tokens_body (record { access = "signed"; refresh = spell 3; err = none }))
      ∷ inserted
          (session_row (record {
            id = 4;
            user_id = 6;
            refresh_token = spell 3;
            user_agent = "browser";
            client_ip = "::1";
            expires_at = 5 + 24 * 30 * hour;
            created_at = 0;
          }))
          none
      ∷ []
unfolding refresh rotate create_session str_eq
rotated-log = refl

refresh_once_example :
    (row rotated.world "u" ≡ none)
    × ((refresh host codec signer sessions echo browser (some "u") rotated).1.log
        ≡ replied 401 (error_body "session expired or invalid") ∷ rotated.log)
refresh_once_example =
    refresh_once host codec signer sessions echo row issued "u" browser browser (quiet signed_in)
      sessions-IsSessionTable sessions-IsTableApart host-IsIssuer (λ w. refl, λ s w e. refl)
      (ground arith)
