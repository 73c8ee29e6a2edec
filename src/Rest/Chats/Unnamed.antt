-- ===== src/Rest/Chats/Unnamed.antt =====
-- A join by nobody (src/internal/transport/rest/chat_handler.go).
use go_service_bao_fight.Base.{ℕ, String, ◌≡◌, refl, true, none, some, ◌∷◌, arith}
use go_service_bao_fight.Base.Json.{Json}
use go_service_bao_fight.Effects.{
  GoError, replied, inserted, member_row, error_body, Env, call, Echo,
}
use go_service_bao_fight.Models.{Uuid, Chat, ChatMember, nil_uuid, zero_time}
use go_service_bao_fight.Models.Codec.{Codec}
use go_service_bao_fight.Rest.Auth.{UserValue, named_user, Writes}
use go_service_bao_fight.Rest.Auth.Outcomes.{with_sender_unnamed}
use go_service_bao_fight.Rest.Chats.{
  MemberCache, MemberTable, join_group, join_found, join_as, join_chat,
}
use go_service_bao_fight.Rest.Chats.Joining.{KeepsIds}

-- The table refuses a member row of the nil user: its user is a foreign key, and no user has the nil
-- id (migrations/000007).
abbrev pub RefusesNobody : {W : Type 0} → MemberTable W → Type 0
RefusesNobody {W} table =
    (m : ChatMember) (w : W)
    → m.user_id ≡ nil_uuid
    → (e : GoError) × ((table.create m w).0.0 ≡ some e)

-- A request whose token names no user goes on to join a group chat as the nil user. Where echo writes
-- every response, the empty id is no uuid, the chat is a group that is there and the table refuses a
-- row of nobody, the handler is answered twice: it writes a refusal, then tries to insert a member row
-- of the nil user, which fails, and writes a 409 that this nobody is already a member.
pub join_chat_unnamed :
    {W B : Type 0} (c : Codec B) (echo : Echo W) (cache : MemberCache W) (table : MemberTable W)
    (value : UserValue) (chat_id : String) (id : Uuid) (chat : Chat) (env : Env W B)
    → Writes echo
    → KeepsIds table
    → RefusesNobody table
    → c.parse_uuid "" ≡ none
    → named_user value ≡ none
    → c.parse_uuid chat_id ≡ some id
    → ((w : W) → (table.find id w).0 ≡ some chat)
    → chat.is_group ≡ true
    → (m : ChatMember) × (m.user_id ≡ nil_uuid)
      × (m.chat_id ≡ id)
      × ((e : GoError) × (status : ℕ) × (refusal : Json) × ((join_chat c echo cache table value
              (some chat_id)
              env).1.log
            ≡ replied 409 (error_body "already a member")
              ∷ inserted (member_row m) (some e)
              ∷ replied status refusal
              ∷ env.log))
unfolding join_chat join_as join_found join_group
join_chat_unnamed c echo cache table value chat_id id chat env writes keeps refuses p unnamed q
      found g =
    let (env', e, r) =
      with_sender_unnamed echo (join_as c echo cache table (some chat_id)) value env writes
        unnamed in
    let env₁ = (call (table.find id) env').1 in
    let m : ChatMember = record { chat_id = id; user_id = nil_uuid; joined_at = zero_time } in
    let (x, refused) = refuses m env₁.world refl in
    (
      (table.create m env₁.world).0.1,
      keeps.user_kept m env₁.world,
      keeps.chat_kept m env₁.world,
      (x, r.status, r.body, rw e (ground (arith, p, q, g, found env'.world, refused, r.logged))),
    )
