-- ===== src/Models/RoundTrip.antt =====
-- What the producer writes to the topic of chat messages is what the consumer and the watchers read.
use go_service_bao_fight.Base.{◌^◌, ◌<◌, ◌≡◌, some, arith}
use go_service_bao_fight.Base.Json.{Fields, end, field}
use go_service_bao_fight.Models.{Message}
use go_service_bao_fight.Models.Codec.{
  Codec, IsFaithful, decode_message, encode_message, message_json,
}
use mathlib.Core.Option

-- By cases on the payload, which `omitempty` may leave out.
back :
    {B : Type 0} (c : Codec B) (f : IsFaithful c) (m : Message) (p : Fields)
    → m.sequence_number < 2 ^ 64
    → decode_message c (encode_message c (record m { payload = p }))
      ≡ some (record m { payload = p })
unfolding decode_message encode_message Option.bind
back c f m end h = ground (
  arith,
  f.json_back (message_json c (record m { payload = end })),
  f.uuid_back m.id,
  f.uuid_back m.chat_id,
  f.uuid_back m.sender_id,
  f.time_back m.created_at,
)
back c f m (field k v fs) h = ground (
  arith,
  f.json_back (message_json c (record m { payload = field k v fs })),
  f.uuid_back m.id,
  f.uuid_back m.chat_id,
  f.uuid_back m.sender_id,
  f.time_back m.created_at,
)

-- A message with a 64-bit sequence number, marshalled by the producer, is unmarshalled by the
-- consumer to the same message, with and without a payload.
pub decode-encode_message :
    {B : Type 0} (c : Codec B) (m : Message)
    → IsFaithful c
    → m.sequence_number < 2 ^ 64
    → decode_message c (encode_message c m) ≡ some m
unfolding decode_message encode_message
decode-encode_message c m f h = back c f m m.payload h
