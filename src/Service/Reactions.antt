-- ===== src/Service/Reactions.antt =====
-- src/internal/service/reaction_service.go: the handler that saves reactions and looks for matches.
pub mod Crash
use go_service_bao_fight.Base.{
  ℕ, String, ◌<>◌, Bool, true, false, Option, none, some, List, [], ◌∷◌, length, ◌==◌, str_eq,
  if◌then◌else◌,
}
use go_service_bao_fight.Base.Json.{Json, null, num, str, obj, end, field}
use go_service_bao_fight.Effects.{
  GoError, KafkaMessage, chat_row, member_row, M, pure, ◌>>=◌, ◌>>◌, call, insert, publish, Kafka,
}
use go_service_bao_fight.Models.{
  Uuid, nil_uuid, zero_time, Reaction, action_like, action_dislike, Chat, ChatMember, unix,
}
use go_service_bao_fight.Models.Codec.{Codec, decode_reaction}
use go_service_bao_fight.Models.Topics.{Topic, match_find_notification, like_notification}
use go_service_bao_fight.Outside.{Host, Redis, Transactions, Chats, transaction}
use go_service_bao_fight.Service.MessageSave.{CreateInBatches}
use go_service_bao_fight.Service.Decoding.{decode_loop}

-- The database of the handler.
pub record ReactionDb (W : Type 0) : Type 0 where
  pub create_reactions : CreateInBatches W Reaction
  pub transactions : Transactions W
  pub chats : Chats W

-- `rdb` is a pointer, and may be nil.
pub record ReactionHandler (W B : Type 0) : Type 0 where
  pub db : ReactionDb W
  pub rdb : Option (Redis W)
  pub writer : Kafka W B

-- `NewReactionHandler`: the client that it is given is not stored.
unfoldable pub new_reaction_handler :
    {W B : Type 0} → ReactionDb W → Kafka W B → Option (Redis W) → ReactionHandler W B
new_reaction_handler db writer rdb = record { db = db; rdb = none; writer = writer }

-- A function without a result returns, or panics.
pub data Outcome : Type 0 where
  done : Outcome
  panicked : Outcome

-- `Process` returns an error or nil, or panics.
pub data Processed : Type 0 where
  finished : Option GoError → Processed
  crashed : Processed

module _ {B : Type 0} (c : Codec B) where
  abbrev pub fans_key : Uuid → String
  fans_key u = "fans:" <> c.uuid_text u

  abbrev pub likes_key : Uuid → String
  likes_key u = "my_likes:" <> c.uuid_text u

  abbrev pub chats_key : Uuid → String
  chats_key u = "user_chats:" <> c.uuid_text u

  abbrev pub optional_uuid : Option Uuid → Json
  optional_uuid none = null
  optional_uuid (some u) = str (c.uuid_text u)

module _ {W B : Type 0} (host : Host W) where
  -- `if r.ID == uuid.Nil { r.ID = uuid.New() }`
  abbrev name_reaction : Reaction → M W B Reaction
  name_reaction r =
      if r.id == nil_uuid then (do u ← call host.new_uuid; pure (record r { id = u })) else pure r

  -- Each reaction that parsed, in the order of the loop.
  unfoldable pub name_all : List Reaction → M W B (List Reaction)
  name_all [] = pure []
  name_all (r ∷ rs) = do r' ← name_reaction r; rs' ← name_all rs; pure (r' ∷ rs')

module _ {W B : Type 0} (host : Host W) (c : Codec B) where
  -- `sendWSNotification`. json.Marshal writes the keys of a map in order; the error of the write is
  -- dropped.
  unfoldable pub send_ws_notification :
      Kafka W B → Uuid → String → Option Uuid → Topic → M W B (Unit {0})
  send_ws_notification writer user kind chat topic = do
    ts ← call host.now
    publish writer (record {
      topic = topic;
      key = c.uuid_text user;
      value = c.json_text (
          obj (
            field "chat_id" (optional_uuid c chat) (
              field "ts" (num (unix ts))
                (field "type" (str kind) (field "user_id" (str (c.uuid_text user)) end)))));
    })
    pure tt

  -- `redis.Z{Score: float64(time.Now().Unix()), Member: chat}` at the head of a user's chats.
  abbrev add_user_chat : Redis W → Uuid → Uuid → M W B (Unit {0})
  add_user_chat client user chat = do
    ts ← call host.now
    call (λ w. (tt, client.z_add (chats_key c user) (unix ts) chat w))

  -- The function that `checkMatch` hands to `Transaction`, after the new chat: both members, both
  -- lists of chats and both notifications.
  unfoldable pub join_both :
      ReactionHandler W B → Redis W → Reaction → Uuid → M W B (Option GoError)
  join_both h client r chat = do
    (err, _) ←
        insert h.db.chats.create_member member_row
          (record { chat_id = chat; user_id = r.from_user_id; joined_at = zero_time })
    elim err [
      | some e ↦ pure (some e)
      | none ↦ do
        (err', _) ←
            insert h.db.chats.create_member member_row
              (record { chat_id = chat; user_id = r.to_user_id; joined_at = zero_time })
        elim err' [
          | some e ↦ pure (some e)
          | none ↦ do
            add_user_chat client r.from_user_id chat
            add_user_chat client r.to_user_id chat
            send_ws_notification h.writer r.from_user_id "match" (some chat) match_find_notification
            send_ws_notification h.writer r.to_user_id "match" (some chat) like_notification
            pure none
        ]
    ]

  unfoldable pub create_dialog : ReactionHandler W B → Redis W → Reaction → M W B (Option GoError)
  create_dialog h client r = do
    existing ← call (h.db.chats.find_dialog r.from_user_id r.to_user_id)
    if existing == nil_uuid
        then (do
          chat ← call host.new_uuid
          (err, _) ←
              insert h.db.chats.create_chat chat_row
                (record { id = chat; title = ""; is_group = false; created_at = zero_time })
          elim err [ some e ↦ pure (some e) | none ↦ join_both h client r chat ])
        else pure none

  -- The branch of `checkMatch` for a match: both likes are taken back, then the chat is made.
  unfoldable pub on_match : ReactionHandler W B → Redis W → Reaction → M W B (Unit {0})
  on_match h client r = do
    call (λ w. (tt, client.s_rem (fans_key c r.to_user_id) (c.uuid_text r.from_user_id) w))
    call (λ w. (tt, client.s_rem (fans_key c r.from_user_id) (c.uuid_text r.to_user_id) w))
    call (λ w. (tt, client.s_rem (likes_key c r.from_user_id) (c.uuid_text r.to_user_id) w))
    call (λ w. (tt, client.s_rem (likes_key c r.to_user_id) (c.uuid_text r.from_user_id) w))
    transaction h.db.transactions (create_dialog h client r)

  -- `checkMatch` at a like.
  unfoldable pub on_like : ReactionHandler W B → Redis W → Reaction → M W B (Unit {0})
  on_like h client r = do
    call (λ w. (tt, client.s_add (fans_key c r.to_user_id) (c.uuid_text r.from_user_id) w))
    call (λ w. (tt, client.s_add (likes_key c r.from_user_id) (c.uuid_text r.to_user_id) w))
    is_match ← call (client.s_is_member (likes_key c r.to_user_id) (c.uuid_text r.from_user_id))
    if is_match
        then on_match h client r
        else send_ws_notification h.writer r.to_user_id "new_like" none like_notification

  -- A method of a nil client panics.
  abbrev with_client : Option (Redis W) → (Redis W → M W B (Unit {0})) → M W B Outcome
  with_client none f = pure panicked
  with_client (some client) f = do f client; pure done

  unfoldable pub check_match : ReactionHandler W B → Reaction → M W B Outcome
  check_match h r =
      if str_eq r.action action_dislike
      then with_client h.rdb (λ client.
        call (λ w. (tt, client.s_rem (fans_key c r.to_user_id) (c.uuid_text r.from_user_id) w)))
      else if str_eq r.action action_like
      then with_client h.rdb (λ client. on_like h client r)
      else pure done

  -- `for _, r := range reactions { h.checkMatch(r) }`
  unfoldable pub check_all : ReactionHandler W B → List Reaction → M W B Processed
  check_all h [] env = (finished none, env)
  check_all h (r ∷ rs) env =
      let (o, env') = check_match h r env in
      elim o [ done ↦ check_all h rs env' | panicked ↦ (crashed, env') ]

  -- What `Process` does with the reactions of the batch.
  unfoldable pub save_and_match : ReactionHandler W B → List Reaction → M W B Processed
  save_and_match h reactions = if length reactions == 0 then pure (finished none) else (do
    err ← call (h.db.create_reactions reactions (length reactions))
    elim err [ some e ↦ pure (finished (some e)) | none ↦ check_all h reactions ])

  unfoldable pub process : ReactionHandler W B → List B → M W B Processed
  process h messages = do
    reactions ← name_all host (decode_loop (decode_reaction c) messages [])
    save_and_match h reactions
