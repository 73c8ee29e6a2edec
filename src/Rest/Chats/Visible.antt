-- ===== src/Rest/Chats/Visible.antt =====
-- When the others see a new member (src/internal/transport/rest/chat_handler.go).
use go_service_bao_fight.Base.{
  ℕ, String, ◌≡◌, ap, ◌∙◌, true, none, some, List, [], ◌∷◌, ◌++◌, map, arith,
}
use go_service_bao_fight.Base.Json.{Json, str, obj, end, field}
use go_service_bao_fight.Effects.{member_row, Env, call, insert, Echo}
use go_service_bao_fight.Models.{Uuid, Chat, ChatMember, zero_time}
use go_service_bao_fight.Models.Codec.{Codec}
use go_service_bao_fight.Rest.Auth.{UserValue, named_user}
use go_service_bao_fight.Rest.Auth.Outcomes.{with_sender_named}
use go_service_bao_fight.Rest.Chats.{
  MemberCache, MemberTable, members_key, from_table, get_chat_participants, join_group, join_found,
  join_as, join_chat,
}

-- `cached` is the set in Redis, and `members` the rows of a chat; the calls of the one leave the
-- other alone.
pub record IsMembership {W B : Type 0} (c : Codec B) (echo : Echo W) (cache : MemberCache W)
    (table : MemberTable W) (cached : W → String → List String) (members : W → Uuid → List Uuid)
    : Type 0 where
  pub s_members_lem : (k : String) (w : W) → (cache.s_members k w).0 ≡ some (cached w k)
  pub members-s_members :
      (k : String) (w : W) (chat : Uuid) → members (cache.s_members k w).1 chat ≡ members w chat
  pub cached-del : (k : String) (w : W) → cached (cache.del k w) k ≡ []
  pub members-del :
      (k : String) (w : W) (chat : Uuid) → members (cache.del k w) chat ≡ members w chat
  pub pluck_lem : (chat : Uuid) (w : W) → (table.pluck chat w).0 ≡ some (members w chat)
  pub members-find :
      (id : Uuid) (w : W) (chat : Uuid) → members (table.find id w).1 chat ≡ members w chat
  pub members-create :
      (m : ChatMember) (w : W)
      → (table.create m w).0.0 ≡ none
      → members (table.create m w).1 m.chat_id ≡ members w m.chat_id ++ m.user_id ∷ []
  pub json_apart :
      (status : ℕ) (body : Json) (w : W) (k : String) (chat : Uuid)
      → (cached (echo.json status body w).1 k ≡ cached w k)
        × (members (echo.json status body w).1 chat ≡ members w chat)

module _ {W B : Type 0} (c : Codec B) (echo : Echo W) (cache : MemberCache W)
    (table : MemberTable W) (cached : W → String → List String) (members : W → Uuid → List Uuid)
    (l : IsMembership c echo cache table cached members) where
  uncached :
      (chat : Uuid) (env : Env W B)
      → cached env.world (members_key c chat) ≡ []
      → (get_chat_participants c cache table chat env).0 ≡ map c.uuid_text (members env.world chat)
  unfolding get_chat_participants from_table
  uncached chat env h =
      let k = members_key c chat in
      let env₁ = (call (cache.s_members k) env).1 in
      ground (
        arith,
        h,
        l.s_members_lem k env.world,
        l.pluck_lem chat env₁.world,
        l.members-s_members k env.world chat,
      )

  -- After the insert has succeeded.
  join_group_visible :
      (user chat : Uuid) (env : Env W B)
      → (table.create
          (record { chat_id = chat; user_id = user; joined_at = zero_time })
          env.world).0.0
        ≡ none
      → (get_chat_participants c cache table chat (join_group c echo cache table user chat env).1).0
        ≡ map c.uuid_text (members env.world chat ++ user ∷ [])
  unfolding join_group
  join_group_visible user chat env ok =
      let m : ChatMember = record { chat_id = chat; user_id = user; joined_at = zero_time } in
      let k = members_key c chat in
      let env₁ = (insert table.create member_row m env).1 in
      let w₂ = cache.del k env₁.world in
      let body = obj (field "status" (str "joined") end) in
      let w₃ = (echo.json 200 body w₂).1 in
      let after = (join_group c echo cache table user chat env).1 in
      let empty : cached after.world k ≡ [] =
        ground (arith, ok, l.cached-del k env₁.world, (l.json_apart 200 body w₂ k chat).0) in
      let rows : members after.world chat ≡ members env.world chat ++ user ∷ [] = ground (
        arith,
        ok,
        l.members-del k env₁.world chat,
        (l.json_apart 200 body w₂ k chat).1,
        l.members-create m env.world ok,
      ) in
      uncached chat after empty ∙ ap (map c.uuid_text) rows

-- The checks are passed.
join_as-group :
    {W B : Type 0} (c : Codec B) (echo : Echo W) (cache : MemberCache W) (table : MemberTable W)
    (user chat_id : String) (uid id : Uuid) (chat : Chat) (env : Env W B)
    → c.parse_uuid user ≡ some uid
    → c.parse_uuid chat_id ≡ some id
    → (table.find id env.world).0 ≡ some chat
    → chat.is_group ≡ true
    → join_as c echo cache table (some chat_id) user env
      ≡ join_group c echo cache table uid id (call (table.find id) env).1
unfolding join_as join_found
join_as-group c echo cache table user chat_id uid id chat env p q found g =
    ground (arith, p, q, found, g)

-- After a join that the database took, everybody sees the new member: for a user whom the token
-- names by a uuid, a group chat, and a membership table that takes the row, `GetChatParticipants`
-- returns the members that the chat had and the new one, whatever was in the cache before.
pub join_chat_visible :
    {W B : Type 0} (c : Codec B) (echo : Echo W) (cache : MemberCache W) (table : MemberTable W)
    (cached : W → String → List String) (members : W → Uuid → List Uuid) (value : UserValue)
    (user chat_id : String) (uid id : Uuid) (chat : Chat) (env : Env W B)
    → IsMembership c echo cache table cached members
    → named_user value ≡ some user
    → c.parse_uuid user ≡ some uid
    → c.parse_uuid chat_id ≡ some id
    → (table.find id env.world).0 ≡ some chat
    → chat.is_group ≡ true
    → (table.create
        (record { chat_id = id; user_id = uid; joined_at = zero_time })
        (table.find id env.world).1).0.0
      ≡ none
    → (get_chat_participants c cache table id
        (join_chat c echo cache table value (some chat_id) env).1).0
      ≡ map c.uuid_text (members env.world id ++ uid ∷ [])
unfolding join_chat
join_chat_visible c echo cache table cached members value user chat_id uid id chat env l named p q
      found g ok =
    let env₁ = (call (table.find id) env).1 in
    rw (with_sender_named echo (join_as c echo cache table (some chat_id)) value user env named) (
      rw (join_as-group c echo cache table user chat_id uid id chat env p q found g) (
        join_group_visible c echo cache table cached members l uid id env₁ ok
        ∙ ap (λ ms. map c.uuid_text (ms ++ uid ∷ [])) (l.members-find id env.world id)))
