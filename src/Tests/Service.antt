-- ===== src/Tests/Service.antt =====
-- The handlers of the consumer (src/internal/service) and the way of a message, in memory.
use mathlib.Core.List.{Memᴰ}
use mathlib.Core.Option
use go_service_bao_fight.Base.{◌≡◌, inr, refl, some, List, [], ◌∷◌, arith, str_eq, filter_map, ◌==◌}
use go_service_bao_fight.Base.Json.{Json, num, str, obj, end, field}
use go_service_bao_fight.Models.{Message, Reaction}
use go_service_bao_fight.Models.Codec.{decode_message, encode_message, decode_reaction}
use go_service_bao_fight.Models.RoundTrip.{decode-encode_message}
use go_service_bao_fight.Worker.Loop.{received, ticked, run, start}
use go_service_bao_fight.Worker.Loop.Conservation.{handed}
use go_service_bao_fight.Service.MessageSave.{process, process_lem, insert_all}
use go_service_bao_fight.Service.Reactions.{
  new_reaction_handler, crashed, process as process_reactions,
}
use go_service_bao_fight.Service.Reactions.Crash.{IsReaction, process_crashes}
use go_service_bao_fight.Pipeline.{sent_message_blocks}
use go_service_bao_fight.Tests.World.{
  Memory, codec, codec-IsFaithful, empty, quiet, host, kafka, redis, reaction_db, save_messages,
  save_messages-IsKeyed, has,
}

abbrev hello : Message
hello = record {
  id = 1;
  chat_id = 2;
  sender_id = 3;
  text = "hello";
  payload = field "color" (str "red") end;
  sequence_number = 4;
  created_at = 5;
}

decode-encode_message_example : decode_message codec (encode_message codec hello) ≡ some hello
decode-encode_message_example = decode-encode_message codec hello codec-IsFaithful (omega arith)

abbrev batch : List Json
batch = encode_message codec hello ∷ num 7 ∷ []

process_lem_example :
    process codec save_messages batch empty
    ≡ insert_all codec save_messages (filter_map (decode_message codec) batch) empty
process_lem_example = process_lem codec save_messages batch empty

-- The message has been stored by the handler that published it.
abbrev stored : Memory
stored = record empty { stored = λ u. u == 1 }

sent_message_blocks_example :
    handed
      (run
        (process codec save_messages)
        1
        (received (encode_message codec hello) ∷ ticked ∷ [])
        (start stored)).calls
    ≡ []
unfolding start
sent_message_blocks_example =
    sent_message_blocks codec save_messages has 1 hello (ticked ∷ []) (start stored)
      codec-IsFaithful save_messages-IsKeyed (omega arith) refl refl

-- A reaction as JSON, and as the row that it is read into.
abbrev like_json : Json
like_json = obj (
    field "from_user_id" (str "uu")
      (field "to_user_id" (str "uuu") (field "action" (str "like") end)))

abbrev like : Reaction
like = record { id = 0; from_user_id = 1; to_user_id = 2; action = "like"; created_at = 0 }

abbrev like_back : Reaction
like_back = record like { from_user_id = 2; to_user_id = 1 }

like_json-like : decode_reaction codec like_json ≡ some like
unfolding decode_reaction Option.bind
like_json-like = refl

like-IsReaction : IsReaction like
unfolding str_eq
like-IsReaction = inr refl

process_crashes_example :
    (process_reactions host codec
      (new_reaction_handler reaction_db kafka (some redis))
      (like_json ∷ [])
      (quiet empty)).0
    ≡ crashed
process_crashes_example =
    process_crashes host codec reaction_db kafka (some redis) like_json like (like_json ∷ [])
      (quiet empty) (Memᴰ.head refl) like_json-like like-IsReaction
