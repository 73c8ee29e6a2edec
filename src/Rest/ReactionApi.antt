-- ===== src/Rest/ReactionApi.antt =====
-- `SetReaction` (src/internal/transport/rest/reaction_handler.go).
pub mod Unheard
use go_service_bao_fight.Base.{String, ◌⊎◌, inl, inr, Option, none, some}
use go_service_bao_fight.Base.Json.{Json, str, obj, end, field}
use go_service_bao_fight.Effects.{
  GoError, KafkaMessage, M, pure, ◌>>=◌, ◌>>◌, Echo, Kafka, reply, publish,
}
use go_service_bao_fight.Models.{Uuid, nil_uuid}
use go_service_bao_fight.Models.Codec.{Codec}
use go_service_bao_fight.Models.Topics.{new_action_profile}
use go_service_bao_fight.Rest.Auth.{UserValue, with_sender}

pub record ReactionInput : Type 0 where
  pub to_user_id : String
  pub action : String

-- `uID, _ := uuid.Parse(userID)`: the nil uuid if it does not parse.
abbrev pub parse_or_nil : Option Uuid → Uuid
parse_or_nil none = nil_uuid
parse_or_nil (some u) = u

-- What is published; json.Marshal writes the keys of a map in order.
unfoldable pub action_message : {B : Type 0} → Codec B → Uuid → ReactionInput → KafkaMessage B
action_message c user input = record {
  topic = new_action_profile;
  key = input.to_user_id;
  value = c.json_text (
      obj (
        field "from_id" (str (c.uuid_text user))
          (field "to_id" (str input.to_user_id) (field "type" (str input.action) end))));
}

module _ {W B : Type 0} (c : Codec B) (echo : Echo W) (kafka : Kafka W B) where
  -- The error of `c.Bind` is returned to echo; the error of Kafka is dropped.
  unfoldable pub react_as : GoError ⊎ ReactionInput → String → M W B (Option GoError)
  react_as (inl e) sender = pure (some e)
  react_as (inr input) sender = do
    publish kafka (action_message c (parse_or_nil (c.parse_uuid sender)) input)
    reply echo 202 (obj (field "status" (str "processing") end))

  unfoldable pub set_reaction : UserValue → GoError ⊎ ReactionInput → M W B (Option GoError)
  set_reaction user body = with_sender echo user (react_as body)
