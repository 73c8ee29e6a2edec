-- ===== src/Pipeline/Notices.antt =====
-- The way of a notification: `sendWSNotification` (src/internal/service/reaction_service.go) of the
-- consumer publishes it, and `StartNotificationWatcher` (src/internal/transport/rest/reaction_handler.go)
-- of every instance of the API writes it to the sockets of the user.
use go_service_bao_fight.Base.{ℕ, String, ◌≡◌, refl, ap, Option, none, some, ◌∷◌}
use go_service_bao_fight.Base.Json.{num, str, obj, end, field, key_is}
use go_service_bao_fight.Effects.{GoError, KafkaMessage, Env, published, Kafka}
use go_service_bao_fight.Models.{Uuid, unix}
use go_service_bao_fight.Models.Codec.{Codec, IsFaithful}
use go_service_bao_fight.Models.Topics.{Topic}
use go_service_bao_fight.Outside.{Host}
use go_service_bao_fight.Service.Reactions.{send_ws_notification, optional_uuid}
use go_service_bao_fight.Rest.Hub.{Hub, sockets}
use go_service_bao_fight.Rest.Hub.Watchers.{deliver, notification_json, notify, read_notification}

-- The payload, as it is read.
read_lem :
    {B : Type 0} (c : Codec B) (user : Uuid) (kind : String) (chat : Option Uuid) (ts : ℕ)
    → IsFaithful c
    → (read_notification c (
        c.json_text (
          obj (
            field "chat_id" (optional_uuid c chat) (
              field "ts" (num ts) (
                field "type" (str kind) (field "user_id" (str (c.uuid_text user)) end))))))).user_id
      ≡ c.uuid_text user
unfolding read_notification key_is
read_lem c user kind none ts f = rw f.json_back refl
read_lem c user kind (some u) ts f = rw f.json_back refl

-- A notification that the consumer publishes, one message whatever Kafka answers, is written by the
-- watcher of an instance to exactly the sockets that its hub has for the user, once each.
pub notify-send_ws_notification :
    {W B : Type 0} (host : Host W) (c : Codec B) (text_of : B → String) (writer : Kafka W B)
    (hub : Hub) (user : Uuid) (kind : String) (chat : Option Uuid) (topic : Topic) (env : Env W B)
    → IsFaithful c
    → (m : KafkaMessage B) × (err : Option GoError) × ((send_ws_notification host c writer user kind
          chat topic env).1.log
        ≡ published m err ∷ env.log)
      × (m.topic ≡ topic)
      × (notify c text_of hub m
          ≡ deliver (notification_json c text_of m) (sockets hub (c.uuid_text user)))
unfolding send_ws_notification notify
notify-send_ws_notification host c text_of writer hub user kind chat topic env f =
    let ts = (host.now env.world).0 in
    let m : KafkaMessage _ = record {
      topic = topic;
      key = c.uuid_text user;
      value = c.json_text (
          obj (
            field "chat_id" (optional_uuid c chat) (
              field "ts" (num (unix ts))
                (field "type" (str kind) (field "user_id" (str (c.uuid_text user)) end)))));
    } in
    (
      m,
      (writer.write m (host.now env.world).1).0,
      refl,
      refl,
      ap (λ u. deliver (notification_json c text_of m) (sockets hub u))
          (read_lem c user kind chat (unix ts) f),
    )
