-- ===== src/Rest/Messages.antt =====
-- `SendMessage` (src/internal/transport/rest/message_handler.go).
pub mod Trace
pub mod Unnamed
use go_service_bao_fight.Base.{String, Option, none, some, ◌||◌, ◌<>◌, ◌==◌, str_eq, if◌then◌else◌}
use go_service_bao_fight.Base.Json.{num, str, obj, end, field}
use go_service_bao_fight.Effects.{
  GoError, message_row, M, pure, ◌>>=◌, call, Create, Echo, Kafka, reply, publish, insert,
  error_body,
}
use go_service_bao_fight.Models.{Uuid, Message}
use go_service_bao_fight.Models.Codec.{Codec, encode_message}
use go_service_bao_fight.Models.Topics.{chat_messages}
use go_service_bao_fight.Outside.{Host, Chats}
use go_service_bao_fight.Rest.Auth.{UserValue, with_sender}

-- The body of the request; `c.Bind` fills it, or fails.
pub record SendInput : Type 0 where
  pub chat_id : String
  pub text : String

module _ {W B : Type 0} (host : Host W) (c : Codec B) (echo : Echo W) (kafka : Kafka W B)
    (chats : Chats W) (create : Create W Message) where
  -- From the membership check on.
  unfoldable pub send_as : Uuid → Uuid → SendInput → M W B (Option GoError)
  send_as sender chat input = do
    count ← call (chats.count_members chat sender)
    if count == 0 then reply echo 403 (error_body "you are not a member of this chat") else (do
      id ← call host.new_uuid
      now ← call host.now
      (err, msg) ← insert create message_row (record {
        id = id;
        chat_id = chat;
        sender_id = sender;
        text = input.text;
        payload = end;
        sequence_number = 0;
        created_at = now;
      })
      elim err [
        | some e ↦ reply echo 500 (error_body "failed to save message")
        | none ↦ do
          sent ←
              publish kafka (record {
                topic = chat_messages;
                key = input.chat_id;
                value = encode_message c msg;
              })
          elim sent [
            | some e ↦ reply echo 500 (error_body ("kafka error: " <> e))
            | none ↦ reply echo 200 (
                obj (
                  field "id" (str (c.uuid_text msg.id))
                    (field "seq" (num msg.sequence_number) (field "status" (str "sent") end))))
          ]
      ])

  -- The checks of the body and of both ids.
  unfoldable pub send_checked : String → SendInput → M W B (Option GoError)
  send_checked sender_id input =
      if str_eq input.chat_id "" || str_eq input.text ""
      then reply echo 400 (error_body "chat_id and text are required")
      else elim (c.parse_uuid sender_id) [
        | none ↦ reply echo 401 (error_body "invalid sender id")
        | some sender ↦ elim (c.parse_uuid input.chat_id) [
          | none ↦ reply echo 400 (error_body "invalid chat id format")
          | some chat ↦ send_as sender chat input
        ]
      ]

  unfoldable pub send_body : Option SendInput → String → M W B (Option GoError)
  send_body none sender_id = reply echo 400 (error_body "invalid request")
  send_body (some input) sender_id = send_checked sender_id input

  unfoldable pub send_message : UserValue → Option SendInput → M W B (Option GoError)
  send_message user body = with_sender echo user (send_body body)
