-- ===== src/Rest/ReactionApi/Unheard.antt =====
-- The reactions that `SetReaction` (src/internal/transport/rest/reaction_handler.go) publishes, and
-- the consumer (src/cmd/app/consumer/main.go, src/internal/service/reaction_service.go).
use mathlib.Core.Option
use go_service_bao_fight.Base.{
  String, ◌≡◌, refl, ap, inr, false, Option, some, List, ◌∷◌, arith, str_eq, All,
}
use go_service_bao_fight.Base.Json.{str, obj, end, field}
use go_service_bao_fight.Effects.{GoError, KafkaMessage, Env, replied, published, Echo, Kafka}
use go_service_bao_fight.Models.{Uuid}
use go_service_bao_fight.Models.Codec.{Codec, IsFaithful, decode_reaction, zero_reaction}
use go_service_bao_fight.Models.Topics.{new_action_profile}
use go_service_bao_fight.Rest.Auth.{UserValue, named_user}
use go_service_bao_fight.Rest.Auth.Outcomes.{with_sender_named}
use go_service_bao_fight.Rest.ReactionApi.{
  ReactionInput, action_message, react_as, set_reaction, parse_or_nil,
}
use go_service_bao_fight.Consumer.{workers}

-- No worker of the consumer reads the topic, and what the worker for reactions would make of the
-- message is a reaction of nobody to nobody.
pub record IsUnheard {B : Type 0} (c : Codec B) (services : List String) (m : KafkaMessage B)
    : Type 0 where
  pub unread : All (λ s. str_eq s.topic m.topic ≡ false) (workers services)
  pub blank : decode_reaction c m.value ≡ some (zero_reaction c)

workers_unread :
    (services : List String)
    → All (λ s. str_eq s.topic new_action_profile ≡ false) (workers services)
unfolding workers str_eq
workers_unread services = ground arith

action_message_unread :
    {B : Type 0} (c : Codec B) (user : Uuid) (input : ReactionInput) (services : List String)
    → All (λ s. str_eq s.topic (action_message c user input).topic ≡ false) (workers services)
unfolding action_message
action_message_unread c user input services = workers_unread services

action_message_blank :
    {B : Type 0} (c : Codec B) (user : Uuid) (input : ReactionInput)
    → IsFaithful c
    → decode_reaction c (action_message c user input).value ≡ some (zero_reaction c)
unfolding action_message decode_reaction Option.bind
action_message_blank c user input f = rw f.json_back refl

-- A reaction that `SetReaction` accepts, with 202 and one message to Kafka, is heard by nobody,
-- whatever services the consumer is started with: no worker reads the topic of the message, and the
-- worker for reactions would decode it to a reaction of the nil user to the nil user without an
-- action.
pub set_reaction-IsUnheard :
    {W B : Type 0} (c : Codec B) (echo : Echo W) (kafka : Kafka W B) (services : List String)
    (value : UserValue) (user : String) (input : ReactionInput) (env : Env W B)
    → IsFaithful c
    → named_user value ≡ some user
    → (m : KafkaMessage B) × (err : Option GoError) × ((set_reaction c echo kafka value
          (inr input)
          env).1.log
        ≡ replied 202 (obj (field "status" (str "processing") end)) ∷ published m err ∷ env.log)
      × IsUnheard c services m
unfolding set_reaction react_as
set_reaction-IsUnheard c echo kafka services value user input env f named =
    let m = action_message c (parse_or_nil (c.parse_uuid user)) input in
    (
      m,
      (kafka.write m env.world).0,
      ap (λ x. x.1.log)
          (with_sender_named echo (react_as c echo kafka (inr input)) value user env named),
      record {
        unread = action_message_unread c _ input services;
        blank = action_message_blank c _ input f;
      },
    )
