-- ===== src/Rest/Inbox/Partners.antt =====
-- The maps that `GetChats` builds (src/internal/transport/rest/chat_handler.go), and a description
-- of the partners that does not use them.
use go_service_bao_fight.Base.{
  ◌≡◌, refl, sym, ap, ◌∙◌, Bool, true, false, Option, none, some, List, [], ◌∷◌, map, ◌==◌,
  if◌then◌else◌,
}
use go_service_bao_fight.Models.{Uuid, Chat, ChatMember, Profile}
use go_service_bao_fight.Rest.Inbox.{
  zero_profile, chat_to_partner, profile_map, ChatResponse, or_zero, partner_profile, glue,
}

abbrev pub or_else : {A : Type 0} → Option A → Option A → Option A
or_else none o = o
or_else (some a) o = some a

or_else_assoc : {A : Type 0} (o p q : Option A) → or_else (or_else o p) q ≡ or_else o (or_else p q)
or_else_assoc none p q = refl
or_else_assoc (some a) p q = refl

-- The user of the last row of a chat.
abbrev pub other_member : List ChatMember → Uuid → Option Uuid
other_member [] chat = none
other_member (p ∷ ps) chat =
    or_else (other_member ps chat) (if chat == p.chat_id then some p.user_id else none)

-- The last profile of a user.
abbrev pub profile_of : List Profile → Uuid → Option Profile
profile_of [] user = none
profile_of (p ∷ ps) user = or_else (profile_of ps user) (if user == p.user_id then some p else none)

-- The profile of the other member, if there is one and it has one.
abbrev pub partner_of : List ChatMember → List Profile → Chat → Profile
partner_of rows profiles chat = elim (other_member rows chat.id) [
  | none ↦ zero_profile
  | some user ↦ or_zero (profile_of profiles user)
]

abbrev pub with_partner : List ChatMember → List Profile → Chat → ChatResponse
with_partner rows profiles chat = record { chat = chat; partner = partner_of rows profiles chat }

if-or_else :
    {A : Type 0} (b : Bool) (a : A) (o : Option A)
    → (if b then some a else o) ≡ or_else (if b then some a else none) o
if-or_else true a o = refl
if-or_else false a o = refl

chat_to_partner_lem :
    (rows : List ChatMember) (m : Uuid → Option Uuid) (chat : Uuid)
    → chat_to_partner rows m chat ≡ or_else (other_member rows chat) (m chat)
unfolding chat_to_partner
chat_to_partner_lem [] m chat = refl
chat_to_partner_lem (p ∷ ps) m chat =
    chat_to_partner_lem ps _ chat
    ∙ ap (or_else (other_member ps chat)) (if-or_else (chat == p.chat_id) p.user_id (m chat))
    ∙ sym (or_else_assoc (other_member ps chat) _ (m chat))

profile_map_lem :
    (profiles : List Profile) (m : Uuid → Option Profile) (user : Uuid)
    → profile_map profiles m user ≡ or_else (profile_of profiles user) (m user)
unfolding profile_map
profile_map_lem [] m user = refl
profile_map_lem (p ∷ ps) m user =
    profile_map_lem ps _ user
    ∙ ap (or_else (profile_of ps user)) (if-or_else (user == p.user_id) p (m user))
    ∙ sym (or_else_assoc (profile_of ps user) _ (m user))

or_else-none : {A : Type 0} (o : Option A) → or_else o none ≡ o
or_else-none none = refl
or_else-none (some a) = refl

partner_profile_lem :
    (rows : List ChatMember) (profiles : List Profile) (chat : Chat)
    → partner_profile (profile_map profiles (λ _. none)) (chat_to_partner rows (λ _. none) chat.id)
      ≡ partner_of rows profiles chat
partner_profile_lem rows profiles chat =
    ap (partner_profile (profile_map profiles (λ _. none)))
      (chat_to_partner_lem rows (λ _. none) chat.id ∙ or_else-none (other_member rows chat.id))
    ∙ read (other_member rows chat.id)
  where
    read :
        (o : Option Uuid)
        → partner_profile (profile_map profiles (λ _. none)) o
          ≡ elim o [ none ↦ zero_profile | some user ↦ or_zero (profile_of profiles user) ]
    read none = refl
    read (some user) =
        ap or_zero
          (profile_map_lem profiles (λ _. none) user ∙ or_else-none (profile_of profiles user))

-- What the loop fills in is each chat with its partner.
pub glue-map :
    (rows : List ChatMember) (profiles : List Profile) (chats : List Chat)
    → glue (chat_to_partner rows (λ _. none)) (profile_map profiles (λ _. none)) chats
      ≡ map (with_partner rows profiles) chats
unfolding glue
glue-map rows profiles [] = refl
glue-map rows profiles (c ∷ cs) =
    ap
      (λ p.
        record { chat = c; partner = p }
        ∷ glue (chat_to_partner rows (λ _. none)) (profile_map profiles (λ _. none)) cs)
      (partner_profile_lem rows profiles c)
    ∙ ap (λ rs. with_partner rows profiles c ∷ rs) (glue-map rows profiles cs)
