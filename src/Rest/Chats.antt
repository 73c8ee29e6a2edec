-- ===== src/Rest/Chats.antt =====
-- The members of a chat (src/internal/transport/rest/chat_handler.go): `GetChatParticipants`, which
-- keeps them in Redis, and `JoinChat`, which drops them there.
pub mod Joining
pub mod Visible
pub mod Unnamed
use go_service_bao_fight.Base.{
  ℕ, String, ◌<>◌, Bool, Option, none, some, List, [], ◌∷◌, map, ltb, ◌==◌, length, if◌then◌else◌,
}
use go_service_bao_fight.Base.Json.{Json, str, obj, end, field}
use go_service_bao_fight.Effects.{
  GoError, member_row, M, pure, ◌>>=◌, ◌>>◌, call, Create, Echo, reply, insert, error_body,
}
use go_service_bao_fight.Models.{Uuid, Chat, ChatMember, zero_time, hour}
use go_service_bao_fight.Models.Codec.{Codec}
use go_service_bao_fight.Rest.Auth.{UserValue, with_sender}
use go_service_bao_fight.Rest.ReactionApi.{parse_or_nil}

-- The Redis sets of members; `s_members` is none on an error, and a command that fails changes
-- nothing.
pub record MemberCache (W : Type 0) : Type 0 where
  pub s_members : String → W → Option (List String) × W
  pub s_add_all : String → List String → W → W
  pub expire : String → ℕ → W → W
  pub del : String → W → W

-- The tables of chats and members: `pluck` the user ids of a chat (none on an error), `find` a chat.
pub record MemberTable (W : Type 0) : Type 0 where
  pub pluck : Uuid → W → Option (List Uuid) × W
  pub find : Uuid → W → Option Chat × W
  pub create : Create W ChatMember

abbrev pub members_key : {B : Type 0} → Codec B → Uuid → String
members_key c chat = "chat_members:" <> c.uuid_text chat

module _ {W B : Type 0} (c : Codec B) (cache : MemberCache W) (table : MemberTable W) where
  -- The rows that were read go into Redis for an hour, if there are any.
  abbrev fill_cache : String → List String → M W B (Unit {0})
  fill_cache key ids =
      if ltb 0 (length ids)
      then (do
        call (λ w. (tt, cache.s_add_all key ids w))
        call (λ w. (tt, cache.expire key hour w)))
      else pure tt

  unfoldable pub from_table : Uuid → M W B (List String)
  from_table chat = do
    rows ← call (table.pluck chat)
    elim rows [
      | none ↦ pure []
      | some members ↦ do
        fill_cache (members_key c chat) (map c.uuid_text members)
        pure (map c.uuid_text members)
    ]

  abbrev cached_or : Option (List String) → M W B (List String) → M W B (List String)
  cached_or none k = k
  cached_or (some []) k = k
  cached_or (some (p ∷ ps)) k = pure (p ∷ ps)

  unfoldable pub get_chat_participants : Uuid → M W B (List String)
  get_chat_participants chat = do
    cached ← call (cache.s_members (members_key c chat))
    cached_or cached (from_table chat)

module _ {W B : Type 0} (c : Codec B) (echo : Echo W) (cache : MemberCache W)
    (table : MemberTable W) where
  unfoldable pub join_group : Uuid → Uuid → M W B (Option GoError)
  join_group user chat = do
    (err, _) ←
        insert table.create member_row
          (record { chat_id = chat; user_id = user; joined_at = zero_time })
    elim err [
      | some e ↦ reply echo 409 (error_body "already a member")
      | none ↦ do
        call (λ w. (tt, cache.del (members_key c chat) w))
        reply echo 200 (obj (field "status" (str "joined") end))
    ]

  unfoldable pub join_found : Uuid → Uuid → Option Chat → M W B (Option GoError)
  join_found user id none = reply echo 404 (error_body "chat not found")
  join_found user id (some chat) =
      if chat.is_group then join_group user id else reply echo 400 (str "cannot join private chat")

  -- `body` is the chat's id in the request, if `c.Bind` could read it.
  unfoldable pub join_as : Option String → String → M W B (Option GoError)
  join_as none sender = reply echo 400 (error_body "invalid request")
  join_as (some chat_id) sender = elim (c.parse_uuid chat_id) [
    | none ↦ reply echo 400 (error_body "invalid chat_id")
    | some chat ↦ do
      found ← call (table.find chat)
      join_found (parse_or_nil (c.parse_uuid sender)) chat found
  ]

  unfoldable pub join_chat : UserValue → Option String → M W B (Option GoError)
  join_chat user body = with_sender echo user (join_as body)
