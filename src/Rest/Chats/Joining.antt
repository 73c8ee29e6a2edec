-- ===== src/Rest/Chats/Joining.antt =====
-- Who joins a chat (src/internal/transport/rest/chat_handler.go).
use go_service_bao_fight.Base.{
  ℕ, String, ◌≡◌, ◌≢◌, refl, true, Option, none, some, List, [], ◌∷◌, ◌++◌, arith, Option-cases,
  Bool-cases, inl, inr,
}
use go_service_bao_fight.Base.Json.{Json, str, obj, end, field}
use go_service_bao_fight.Effects.{
  GoError, Effect, replied, inserted, member_row, Env, call, Echo, error_body,
}
use go_service_bao_fight.Models.{Uuid, Chat, ChatMember, zero_time}
use go_service_bao_fight.Models.Codec.{Codec}
use go_service_bao_fight.Rest.Auth.{UserValue, named_user}
use go_service_bao_fight.Rest.Auth.Outcomes.{with_sender_named}
use go_service_bao_fight.Rest.ReactionApi.{parse_or_nil}
use go_service_bao_fight.Rest.Chats.{
  MemberCache, MemberTable, join_group, join_found, join_as, join_chat,
}

-- The calls of one run, the newest first: a refusal, a member that the database refused, or a member
-- and a 200.
pub data JoinTrace {B : Type 0} (P : ChatMember → Type 0) : List (Effect B) → Type 0 where
  refused : (status : ℕ) (body : Json) → status ≢ 200 → JoinTrace P (replied status body ∷ [])
  conflict :
      (body : Json) (m : ChatMember) (e : GoError)
      → P m
      → JoinTrace P (replied 409 body ∷ inserted (member_row m) (some e) ∷ [])
  joined :
      (body : Json) (m : ChatMember)
      → P m
      → JoinTrace P (replied 200 body ∷ inserted (member_row m) none ∷ [])

abbrev pub JoinTraced : {W B : Type 0} → (ChatMember → Type 0) → Env W B → Env W B → Type 0
JoinTraced {W} {B} P env env' =
    (added : List (Effect B)) × (env'.log ≡ added ++ env.log) × JoinTrace P added

-- The member is this user, and the chat was found and is a group.
pub record IsGroupMember {W : Type 0} (table : MemberTable W) (w : W) (user : Uuid) (m : ChatMember)
    : Type 0 where
  pub who : m.user_id ≡ user
  pub chat : Chat
  pub found : (table.find m.chat_id w).0 ≡ some chat
  pub group : chat.is_group ≡ true

-- gorm's `Create` keeps the two ids.
pub record KeepsIds {W : Type 0} (table : MemberTable W) : Type 0 where
  pub user_kept : (m : ChatMember) (w : W) → (table.create m w).0.1.user_id ≡ m.user_id
  pub chat_kept : (m : ChatMember) (w : W) → (table.create m w).0.1.chat_id ≡ m.chat_id

module _ {W B : Type 0} (c : Codec B) (echo : Echo W) (cache : MemberCache W)
    (table : MemberTable W) (keeps : KeepsIds table) where
  join_group-JoinTraced :
      (P : ChatMember → Type 0) (user chat : Uuid) (env : Env W B)
      → ((m : ChatMember) → m.user_id ≡ user → m.chat_id ≡ chat → P m)
      → JoinTraced P env (join_group c echo cache table user chat env).1
  unfolding join_group
  join_group-JoinTraced P user chat env ok =
      let m : ChatMember = record { chat_id = chat; user_id = user; joined_at = zero_time } in
      let m' = (table.create m env.world).0.1 in
      let good = ok m' (keeps.user_kept m env.world) (keeps.chat_kept m env.world) in
      elim (Option-cases (table.create m env.world).0.0) [
        | inr (e, q) ↦ (
          replied 409 (error_body "already a member") ∷ inserted (member_row m') (some e) ∷ [],
          ground arith,
          conflict _ m' e good,
        )
        | inl q ↦ (
          replied 200 (obj (field "status" (str "joined") end))
              ∷ inserted (member_row m') none
              ∷ [],
          ground arith,
          joined _ m' good,
        )
      ]

  join_as-JoinTraced :
      (body : Option String) (user : String) (env : Env W B)
      → JoinTraced
          (IsGroupMember table env.world (parse_or_nil (c.parse_uuid user)))
          env
          (join_as c echo cache table body user env).1
  unfolding join_as join_found
  join_as-JoinTraced none user env =
      (replied 400 (error_body "invalid request") ∷ [], refl, refused 400 _ (omega arith))
  join_as-JoinTraced (some chat_id) user env = elim (Option-cases (c.parse_uuid chat_id)) [
    | inl q ↦
        (replied 400 (error_body "invalid chat_id") ∷ [], ground arith, refused 400 _ (omega arith))
    | inr (id, q) ↦
        let u = parse_or_nil (c.parse_uuid user) in
        let env₁ = (call (table.find id) env).1 in
        elim (Option-cases (table.find id env.world).0) [
          | inl r ↦ (
            replied 404 (error_body "chat not found") ∷ [],
            ground arith,
            refused 404 _ (omega arith),
          )
          | inr (chat, r) ↦ elim (Bool-cases chat.is_group) [
            | inr g ↦ (
              replied 400 (str "cannot join private chat") ∷ [],
              ground arith,
              refused 400 _ (omega arith),
            )
            | inl g ↦
                let (added, e, t) =
                  join_group-JoinTraced (IsGroupMember table env.world u) u id env₁ (λ m who where'.
                    record { who = who; chat = chat; found = rw where' r; group = g }) in
                (added, ground (arith, e), t)
          ]
        ]
  ]

-- A call of `JoinChat` for a user whom the token names makes, whatever the database and Redis
-- answer, the calls of one of three traces: a refusal; a member row that the database refused, and
-- a 409; or a member row and a 200. The row is for the user of the token (the nil user, if the id
-- of the token is no uuid) and for a chat that was found and is a group.
pub join_chat_traced :
    {W B : Type 0} (c : Codec B) (echo : Echo W) (cache : MemberCache W) (table : MemberTable W)
    (value : UserValue) (user : String) (body : Option String) (env : Env W B)
    → KeepsIds table
    → named_user value ≡ some user
    → JoinTraced
        (IsGroupMember table env.world (parse_or_nil (c.parse_uuid user)))
        env
        (join_chat c echo cache table value body env).1
unfolding join_chat
join_chat_traced c echo cache table value user body env keeps named =
    rw (with_sender_named echo (join_as c echo cache table body) value user env named)
      (join_as-JoinTraced c echo cache table keeps body user env)
