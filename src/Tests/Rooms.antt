-- ===== src/Tests/Rooms.antt =====
-- Chats, sockets and reactions of the API (src/internal/transport/rest), in memory.
use go_service_bao_fight.Base.{
  ℕ, String, ◌≡◌, refl, true, inr, Option, none, some, List, [], ◌∷◌, ◌++◌, arith, str_eq,
  str_eq_self, ◌==◌, if◌then◌else◌,
}
use go_service_bao_fight.Base.Json.{
  Json, null, str, obj, end, field, decode_struct, key_is, get_key,
}
use go_service_bao_fight.Effects.{
  GoError, error_body, GoError, KafkaMessage, Env, Echo, Kafka, replied, published, inserted,
  member_row,
}
use go_service_bao_fight.Models.{Uuid, Chat, ChatMember, Message, nil_uuid}
use go_service_bao_fight.Models.Codec.{decode_message, encode_message, decode_map}
use go_service_bao_fight.Models.RoundTrip.{decode-encode_message}
use go_service_bao_fight.Models.Topics.{like_notification}
use go_service_bao_fight.Outside.{Host}
use go_service_bao_fight.Rest.Auth.{UserValue, named_user, token_claims, claimed_id}
use go_service_bao_fight.Rest.Chats.{MemberCache, MemberTable, get_chat_participants, join_chat}
use go_service_bao_fight.Rest.Chats.Joining.{KeepsIds, JoinTraced, IsGroupMember, join_chat_traced}
use go_service_bao_fight.Rest.Chats.Visible.{IsMembership, join_chat_visible}
use go_service_bao_fight.Rest.Chats.Unnamed.{join_chat_unnamed}
use go_service_bao_fight.Rest.Hub.{new_hub, sockets}
use go_service_bao_fight.Rest.Hub.Watchers.{
  fatal, deliver, deliver_all, chat_event, watch_chats, notify, notification_json,
  watch_chats-fatal,
}
use go_service_bao_fight.Rest.ReactionApi.{ReactionInput, set_reaction}
use go_service_bao_fight.Rest.ReactionApi.Unheard.{IsUnheard, set_reaction-IsUnheard}
use go_service_bao_fight.Service.Reactions.{send_ws_notification}
use go_service_bao_fight.Pipeline.Notices.{notify-send_ws_notification}
use go_service_bao_fight.Tests.World.{codec, codec-IsFaithful}

-- The cached sets, and the rows.
pub record Rooms : Type 0 where
  pub sets : String → List String
  pub rows : Uuid → List Uuid

abbrev rooms : Rooms
rooms = record { sets = λ k. "stale" ∷ []; rows = λ chat. 5 ∷ [] }

abbrev before : Env Rooms Json
before = record { world = rooms; log = [] }

abbrev echo : Echo Rooms
echo = record { json = λ status body w. (none, w) }

abbrev kafka : Kafka Rooms Json
kafka = record { write = λ m w. (some "down", w) }

abbrev host : Host Rooms
host = record { new_uuid = λ w. (1, w); now = λ w. (2, w) }

abbrev set_key : String → List String → Rooms → Rooms
set_key k ids w = record w { sets = λ j. if str_eq j k then ids else w.sets j }

abbrev cache : MemberCache Rooms
cache = record {
  s_members = λ k w. (some (w.sets k), w);
  s_add_all = λ k ids w. set_key k (w.sets k ++ ids) w;
  expire = λ k ttl w. w;
  del = λ k w. set_key k [] w;
}

abbrev group : Chat
group = record { id = 2; title = "club"; is_group = true; created_at = 1 }

abbrev table : MemberTable Rooms
table = record {
  pluck = λ chat w. (some (w.rows chat), w);
  find = λ id w. (some group, w);
  create = λ m w. (
    (none, m),
    record w {
      rows = λ chat. if chat == m.chat_id then w.rows chat ++ m.user_id ∷ [] else w.rows chat;
    },
  );
}

rooms-IsMembership : IsMembership codec echo cache table (λ w. w.sets) (λ w. w.rows)
rooms-IsMembership = record {
  s_members_lem = λ k w. refl;
  members-s_members = λ k w chat. refl;
  cached-del = λ k w. rw (str_eq_self k) refl;
  members-del = λ k w chat. refl;
  pluck_lem = λ chat w. refl;
  members-find = λ id w chat. refl;
  members-create = λ m w h. ground arith;
  json_apart = λ status body w k chat. (refl, refl);
}

abbrev token : UserValue
token = some (some (obj (field "Claims" (obj (field "user_id" (str "uu") end)) end)))

token-named : named_user token ≡ some "uu"
unfolding named_user token_claims claimed_id decode_struct key_is decode_map str_eq get_key
token-named = refl

no_token : named_user none ≡ none
unfolding named_user
no_token = refl

join_chat_traced_example :
    JoinTraced
      (IsGroupMember table rooms 1)
      before
      (join_chat codec echo cache table token (some "uuu") before).1
join_chat_traced_example =
    join_chat_traced codec echo cache table token "uu" (some "uuu") before
      (record { user_kept = λ m w. refl; chat_kept = λ m w. refl }) token-named

join_chat_visible_example :
    (get_chat_participants codec cache table 2
      (join_chat codec echo cache table token (some "uuu") before).1).0
    ≡ "uuuuuu" ∷ "uu" ∷ []
join_chat_visible_example =
    join_chat_visible codec echo cache table (λ w. w.sets) (λ w. w.rows) token "uu" "uuu" 1 2 group
      before rooms-IsMembership token-named refl refl refl refl refl

-- The same table with its foreign key to the users.
abbrev strict : MemberTable Rooms
strict = record table {
  create = λ m w. if m.user_id == nil_uuid then ((some "no such user", m), w) else table.create m w;
}

strict-KeepsIds : KeepsIds strict
strict-KeepsIds = record { user_kept = λ m w. ground arith; chat_kept = λ m w. ground arith }

join_chat_unnamed_example :
    (m : ChatMember) × (m.user_id ≡ nil_uuid)
    × (m.chat_id ≡ 2)
    × ((e : GoError) × (status : ℕ) × (refusal : Json) × ((join_chat codec echo cache strict none
            (some "uuu")
            before).1.log
          ≡ replied 409 (error_body "already a member")
            ∷ inserted (member_row m) (some e)
            ∷ replied status refusal
            ∷ []))
join_chat_unnamed_example =
    join_chat_unnamed codec echo cache strict none "uuu" 2 group before (λ status body w. refl)
      strict-KeepsIds (λ m w h. ("no such user", ground arith)) refl no_token refl (λ w. refl) refl

abbrev hello : Message
hello = record {
  id = 1;
  chat_id = 2;
  sender_id = 3;
  text = "hello";
  payload = end;
  sequence_number = 4;
  created_at = 5;
}

hello-decoded : decode_message codec (encode_message codec hello) ≡ some hello
hello-decoded = decode-encode_message codec hello codec-IsFaithful (omega arith)

watch_chats-fatal_example :
    (watch_chats codec cache table new_hub [] (encode_message codec hello ∷ null ∷ []) before).0
    ≡ record {
      deliveries =
          deliver_all new_hub
            (chat_event codec hello)
            (get_chat_participants codec cache table 2 before).0;
      fate = fatal;
    }
watch_chats-fatal_example =
    watch_chats-fatal codec cache table new_hub [] (null ∷ []) (encode_message codec hello) hello
      before refl tt hello-decoded

abbrev like : ReactionInput
like = record { to_user_id = "uuu"; action = "like" }

set_reaction-IsUnheard_example :
    (m : KafkaMessage Json) × (err : Option GoError) × ((set_reaction codec echo kafka token
        (inr like)
        before).1.log
      ≡ replied 202 (obj (field "status" (str "processing") end)) ∷ published m err ∷ [])
    × IsUnheard codec ("all" ∷ []) m
set_reaction-IsUnheard_example =
    set_reaction-IsUnheard codec echo kafka ("all" ∷ []) token "uu" like before codec-IsFaithful
      token-named

notify-send_ws_notification_example :
    (m : KafkaMessage Json) × (err : Option GoError) × ((send_ws_notification host codec kafka 3
        "new_like" none like_notification before).1.log
      ≡ published m err ∷ [])
    × (m.topic ≡ like_notification)
    × (notify codec (λ b. "payload") new_hub m
        ≡ deliver (notification_json codec (λ b. "payload") m) (sockets new_hub "uuuu"))
notify-send_ws_notification_example =
    notify-send_ws_notification host codec (λ b. "payload") kafka new_hub 3 "new_like" none
      like_notification before codec-IsFaithful
