-- ===== src/Rest/Hub/Watchers.antt =====
-- The two watchers that carry messages of Kafka to the sockets of this instance:
-- `StartNotificationWatcher` (src/internal/transport/rest/reaction_handler.go) and
-- `StartChatWatcher` (chat_handler.go). A watcher is given the messages that its reader returns
-- before it fails, and finds the hub as it is.

use go_service_bao_fight.Base.{
  ◌-◌, String, ◌≡◌, refl, ap, ◌∙◌, Option, none, some, List, [], ◌∷◌, ◌++◌, All, ◌==◌,
  if◌then◌else◌,
}
use go_service_bao_fight.Base.Json.{Json, str, obj, Fields, end, field, key_is}
use go_service_bao_fight.Effects.{Env, KafkaMessage, M}
use go_service_bao_fight.Models.{Message}
use go_service_bao_fight.Models.Codec.{Codec, decode_message, message_json}
use go_service_bao_fight.Rest.Chats.{MemberCache, MemberTable, get_chat_participants}
use go_service_bao_fight.Rest.Hub.{Socket, Hub, sockets}

-- What `WriteJSON` sends, and to which socket.
pub record Delivery : Type 0 where
  pub socket : Socket
  pub body : Json

abbrev pub deliver : Json → List Socket → List Delivery
deliver body [] = []
deliver body (ws ∷ rest) = record { socket = ws; body = body } ∷ deliver body rest

-- The struct that a notification is read into.
pub record Notification : Type 0 where
  pub user_id : String
  pub kind : String

-- The error of json.Unmarshal is dropped, so a member that does not fit leaves its field and the
-- others are set all the same.
abbrev pub set_notification : String → Json → Notification → Notification
set_notification k (str s) n =
    if key_is k "user_id"
    then record n { user_id = s }
    else if key_is k "type"
    then record n { kind = s }
    else n
set_notification k _ n = n

abbrev read_members : Fields → Notification → Notification
read_members end n = n
read_members (field k v fs) n = read_members fs (set_notification k v n)

abbrev read_tree : Option Json → Notification
read_tree (some (obj fs)) = read_members fs (record { user_id = ""; kind = "" })
read_tree _ = record { user_id = ""; kind = "" }

unfoldable pub read_notification : {B : Type 0} → Codec B → B → Notification
read_notification c data' = read_tree (c.parse_json data')

module _ {B : Type 0} (c : Codec B) (text_of : B → String) where
  -- `text_of` is Go's conversion of a byte slice to a string.
  abbrev pub notification_json : KafkaMessage B → Json
  notification_json m = obj (
      field "event" (str "notification")
        (field "payload" (str (text_of m.value)) (field "type" (str m.topic) end)))

  -- One round of `StartNotificationWatcher`.
  unfoldable pub notify : Hub → KafkaMessage B → List Delivery
  notify hub m = deliver (notification_json m) (sockets hub (read_notification c m.value).user_id)

  unfoldable pub watch_notifications : Hub → List (KafkaMessage B) → List Delivery
  watch_notifications hub [] = []
  watch_notifications hub (m ∷ ms) = notify hub m ++ watch_notifications hub ms

-- `StartChatWatcher` has seen its messages, or the process was ended by `sync: RUnlock of unlocked
-- RWMutex`, which cannot be recovered from.
pub data Fate : Type 0 where
  alive : Fate
  fatal : Fate

pub record Watched : Type 0 where
  pub deliveries : List Delivery
  pub fate : Fate

-- `h.hub.Mu.RUnlock()`
abbrev pub r_unlock : Hub → Option Hub
r_unlock hub = if hub.readers == 0 then none else some (record hub { readers = hub.readers - 1 })

abbrev pub deliver_all : Hub → Json → List String → List Delivery
deliver_all hub body [] = []
deliver_all hub body (u ∷ us) = deliver body (sockets hub u) ++ deliver_all hub body us

module _ {B : Type 0} (c : Codec B) where
  abbrev pub chat_event : Message → Json
  chat_event msg = obj (
      field "chat_id" (str (c.uuid_text msg.chat_id)) (
        field "inbox"
          (obj (
            field "preview" (str msg.text)
              (field "updated_at" (str (c.time_text msg.created_at)) end)))
          (field "message" (message_json c msg) (field "type" (str "chat_activity") end))))

module _ {W B : Type 0} (c : Codec B) (cache : MemberCache W) (table : MemberTable W) where
  -- `sent` was delivered so far.
  unfoldable pub watch_chats : Hub → List Delivery → List B → M W B Watched
  watch_chats hub sent [] env = (record { deliveries = sent; fate = alive }, env)
  watch_chats hub sent (d ∷ ds) env = elim (decode_message c d) [
    | none ↦ watch_chats hub sent ds env
    | some msg ↦
        let (participants, env') = get_chat_participants c cache table msg.chat_id env in
        let sent' = sent ++ deliver_all hub (chat_event c msg) participants in
        elim (r_unlock hub) [
          | none ↦ (record { deliveries = sent'; fate = fatal }, env')
          | some hub' ↦ watch_chats hub' sent' ds env'
        ]
  ]

  skip :
      (hub : Hub) (skipped ds : List B) (env : Env W B)
      → All (λ d. decode_message c d ≡ none) skipped
      → watch_chats hub [] (skipped ++ ds) env ≡ watch_chats hub [] ds env
  unfolding watch_chats
  skip hub [] ds env h = refl
  skip hub (x ∷ xs) ds env h = rw (h.0, watch_chats) (skip hub xs ds env h.1)

-- The first chat message that parses ends the process: where nobody holds a read lock of the hub,
-- `StartChatWatcher` passes over the messages before it that do not parse, delivers this one to
-- every socket of every member of its chat, and then unlocks a lock that it never took. Nothing
-- that comes after is delivered.
pub watch_chats-fatal :
    {W B : Type 0} (c : Codec B) (cache : MemberCache W) (table : MemberTable W) (hub : Hub)
    (skipped rest : List B) (d : B) (msg : Message) (env : Env W B)
    → hub.readers ≡ 0
    → All (λ x. decode_message c x ≡ none) skipped
    → decode_message c d ≡ some msg
    → (watch_chats c cache table hub [] (skipped ++ d ∷ rest) env).0 ≡ record {
      deliveries =
          deliver_all hub
            (chat_event c msg)
            (get_chat_participants c cache table msg.chat_id env).0;
      fate = fatal;
    }
unfolding watch_chats
watch_chats-fatal c cache table hub skipped rest d msg env free h e =
    ap (λ x. x.0) (skip c cache table hub skipped (d ∷ rest) env h)
    ∙ rw (e, watch_chats) (rw free refl)
