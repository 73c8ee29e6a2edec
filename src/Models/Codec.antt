-- ===== src/Models/Codec.antt =====
-- How encoding/json reads and writes the rows that travel through Kafka: `json.Marshal` and
-- `json.Unmarshal` at models.Message and models.Reaction, by their struct tags.
-- The spelling of ids, times and JSON itself is a parameter (uuid, time, encoding/json).
use go_service_bao_fight.Base.{ℕ, ◌^◌, ◌≡◌, String, Option, none, some, ltb, if◌then◌else◌}
use go_service_bao_fight.Base.Json.{
  Json, null, num, str, obj, Fields, end, field, append, key_is, decode_struct,
}
use go_service_bao_fight.Models.{Uuid, Time, nil_uuid, zero_time, Message, Reaction}
use mathlib.Core.Option

-- `B` is the type of byte slices.
pub record Codec (B : Type 0) : Type 0 where
  pub uuid_text : Uuid → String
  pub parse_uuid : String → Option Uuid
  pub time_text : Time → String
  pub parse_time : String → Option Time
  pub json_text : Json → B
  pub parse_json : B → Option Json

-- What the packages document: what one of them writes, it reads back.
pub record IsFaithful {B : Type 0} (c : Codec B) : Type 0 where
  pub uuid_back : (u : Uuid) → c.parse_uuid (c.uuid_text u) ≡ some u
  pub time_back : (t : Time) → c.parse_time (c.time_text t) ≡ some t
  pub json_back : (j : Json) → c.parse_json (c.json_text j) ≡ some j

-- A JSON value into a field that holds `old`: `null` leaves the field as it is.
unfoldable pub decode_string : String → Json → Option String
decode_string old (str s) = some s
decode_string old null = some old
decode_string old _ = none

unfoldable pub decode_uint : ℕ → ℕ → Json → Option ℕ
decode_uint bits old (num n) = if ltb n (2 ^ bits) then some n else none
decode_uint bits old null = some old
decode_uint bits old _ = none

-- A map takes the members of an object beside those it has; `null` makes it nil.
unfoldable pub decode_map : Fields → Json → Option Fields
decode_map old (obj fs) = some (append old fs)
decode_map old null = some end
decode_map old _ = none

module _ {B : Type 0} (c : Codec B) where
  unfoldable pub decode_uuid : Uuid → Json → Option Uuid
  decode_uuid old (str s) = c.parse_uuid s
  decode_uuid old null = some old
  decode_uuid old _ = none

  unfoldable pub decode_time : Time → Json → Option Time
  decode_time old (str s) = c.parse_time s
  decode_time old null = some old
  decode_time old _ = none

  -- The fields of models.Message by their tags; other keys are ignored.
  unfoldable pub set_message : String → Json → Message → Option Message
  unfolding key_is decode_string decode_uint decode_map decode_uuid decode_time
  set_message k v m =
      if key_is k "id"
      then Option.map (λ a. record m { id = a }) (decode_uuid m.id v)
      else if key_is k "chat_id"
      then Option.map (λ a. record m { chat_id = a }) (decode_uuid m.chat_id v)
      else if key_is k "sender_id"
      then Option.map (λ a. record m { sender_id = a }) (decode_uuid m.sender_id v)
      else if key_is k "text"
      then Option.map (λ a. record m { text = a }) (decode_string m.text v)
      else if key_is k "payload"
      then Option.map (λ a. record m { payload = a }) (decode_map m.payload v)
      else if key_is k "seq"
      then Option.map (λ a. record m { sequence_number = a }) (decode_uint 64 m.sequence_number v)
      else if key_is k "created_at"
      then Option.map (λ a. record m { created_at = a }) (decode_time m.created_at v)
      else some m

  unfoldable pub set_reaction : String → Json → Reaction → Option Reaction
  unfolding key_is decode_string decode_uuid decode_time
  set_reaction k v r =
      if key_is k "id"
      then Option.map (λ a. record r { id = a }) (decode_uuid r.id v)
      else if key_is k "from_user_id"
      then Option.map (λ a. record r { from_user_id = a }) (decode_uuid r.from_user_id v)
      else if key_is k "to_user_id"
      then Option.map (λ a. record r { to_user_id = a }) (decode_uuid r.to_user_id v)
      else if key_is k "action"
      then Option.map (λ a. record r { action = a }) (decode_string r.action v)
      else if key_is k "created_at"
      then Option.map (λ a. record r { created_at = a }) (decode_time r.created_at v)
      else some r

  abbrev pub zero_message : Message
  zero_message = record {
    id = nil_uuid;
    chat_id = nil_uuid;
    sender_id = nil_uuid;
    text = "";
    payload = end;
    sequence_number = 0;
    created_at = zero_time;
  }

  abbrev pub zero_reaction : Reaction
  zero_reaction = record {
    id = nil_uuid;
    from_user_id = nil_uuid;
    to_user_id = nil_uuid;
    action = "";
    created_at = zero_time;
  }

  -- `var m models.Message; json.Unmarshal(data, &m)`
  unfoldable pub decode_message : B → Option Message
  unfolding decode_struct set_message
  decode_message data' = Option.bind (c.parse_json data') (decode_struct set_message zero_message)

  -- `var r models.Reaction; json.Unmarshal(data, &r)`
  unfoldable pub decode_reaction : B → Option Reaction
  unfolding decode_struct set_reaction
  decode_reaction data' =
      Option.bind (c.parse_json data') (decode_struct set_reaction zero_reaction)

  -- `omitempty` leaves an empty map out.
  abbrev payload_field : Fields → Fields → Fields
  payload_field end rest = rest
  payload_field (field k v fs) rest = field "payload" (obj (field k v fs)) rest

  unfoldable pub message_json : Message → Json
  message_json m = obj (
      field "id" (str (c.uuid_text m.id)) (
        field "chat_id" (str (c.uuid_text m.chat_id)) (
          field "sender_id" (str (c.uuid_text m.sender_id)) (
            field "text" (str m.text) (
              payload_field m.payload (
                field "seq" (num m.sequence_number)
                  (field "created_at" (str (c.time_text m.created_at)) end)))))))

  unfoldable pub encode_message : Message → B
  unfolding message_json
  encode_message m = c.json_text (message_json m)
