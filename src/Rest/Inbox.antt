-- ===== src/Rest/Inbox.antt =====
-- `GetChats` (src/internal/transport/rest/chat_handler.go): the chats of a user, each with the
-- profile of the other member. A sorted set of Redis keeps the ids of the chats.
pub mod Partners
pub mod Cached
pub mod Paging
use go_service_bao_fight.Base.{
  ℕ, ◌*◌, String, ◌<>◌, Bool, Option, none, some, List, [], ◌∷◌, map, ◌==◌, str_eq, if◌then◌else◌,
}
use go_service_bao_fight.Base.Int.{ℤ, pos, negsuc, atoi}
use go_service_bao_fight.Base.Json.{Json, boolean, num, str, arr, obj, Items, nil, cons, end, field}
use go_service_bao_fight.Effects.{GoError, M, pure, ◌>>=◌, ◌>>◌, call, Echo, reply}
use go_service_bao_fight.Models.{
  Uuid, Time, nil_uuid, zero_time, hour, unix, Chat, ChatMember, Profile,
}
use go_service_bao_fight.Models.Codec.{Codec}
use go_service_bao_fight.Outside.{Host}
use go_service_bao_fight.Rest.Auth.{UserValue, with_sender}
use go_service_bao_fight.Rest.Discovery.{profile_json}
use go_service_bao_fight.Rest.ReactionApi.{parse_or_nil}

-- ZREVRANGEBYSCORE from a highest score to "-inf", with at most so many members (empty on an error,
-- which the code drops), ZADD of members with one score, and EXPIRE.
pub record SortedSet (W : Type 0) : Type 0 where
  pub z_rev_range_by_score : String → String → ℕ → W → List String × W
  pub z_add_all : String → ℕ → List String → W → W
  pub expire : String → ℕ → W → W

-- The queries; each finds nothing on an error, which the code drops: the ids of the chats of a user,
-- the chats of the ids, the rows of the members of these chats other than a user, and the profiles
-- of the users.
pub record InboxDb (W : Type 0) : Type 0 where
  pub pluck : String → W → List String × W
  pub chats : List String → W → List Chat × W
  pub partners : List String → Uuid → W → List ChatMember × W
  pub profiles : List Uuid → W → List Profile × W

abbrev pub inbox_key : String → String
inbox_key user = "user_chats:" <> user

-- `if limit <= 0 { limit = 20 }`
unfoldable pub inbox_limit : ℤ → ℕ
inbox_limit (negsuc n) = 20
inbox_limit (pos n) = if n == 0 then 20 else n

-- `maxScore`: the highest score that is asked for, "(" for one that is below.
abbrev pub max_score : String → String
max_score before_ts = if str_eq before_ts "" then "+inf" else "(" <> before_ts

-- A `Profile` that no assignment has touched.
abbrev pub zero_profile : Profile
zero_profile = record {
  id = nil_uuid;
  user_id = nil_uuid;
  nick_name = "";
  user_name = "";
  age = 0;
  gender = "";
  sport = "";
  level = "";
  experience = "";
  weight = "";
  photo_url = "";
  created_at = zero_time;
  updated_at = zero_time;
}

-- `chatToPartner[p.ChatID] = p.UserID` for each row; a map is a function, none for a missing key.
unfoldable pub chat_to_partner : List ChatMember → (Uuid → Option Uuid) → Uuid → Option Uuid
chat_to_partner [] m = m
chat_to_partner (p ∷ ps) m =
    chat_to_partner ps (λ id. if id == p.chat_id then some p.user_id else m id)

-- `profileMap[p.UserID] = p` for each row.
unfoldable pub profile_map : List Profile → (Uuid → Option Profile) → Uuid → Option Profile
profile_map [] m = m
profile_map (p ∷ ps) m = profile_map ps (λ id. if id == p.user_id then some p else m id)

-- `ChatResponse`
pub record ChatResponse : Type 0 where
  pub chat : Chat
  pub partner : Profile

abbrev pub or_zero : Option Profile → Profile
or_zero none = zero_profile
or_zero (some p) = p

abbrev pub partner_profile : (Uuid → Option Profile) → Option Uuid → Profile
partner_profile profiles none = zero_profile
partner_profile profiles (some id) = or_zero (profiles id)

-- The loop that fills `response`.
unfoldable pub glue : (Uuid → Option Uuid) → (Uuid → Option Profile) → List Chat → List ChatResponse
glue partners profiles [] = []
glue partners profiles (c ∷ cs) =
    record { chat = c; partner = partner_profile profiles (partners c.id) }
    ∷ glue partners profiles cs

-- `lastTS`, for chats that were made after 1970.
abbrev pub last_ts : List Chat → ℕ
last_ts [] = 0
last_ts (c ∷ []) = unix c.created_at
last_ts (c ∷ d ∷ cs) = last_ts (d ∷ cs)

module _ {B : Type 0} (c : Codec B) where
  abbrev pub response_json : ChatResponse → Json
  response_json r = obj (
      field "id" (str (c.uuid_text r.chat.id)) (
        field "title" (str r.chat.title) (
          field "is_group" (boolean r.chat.is_group) (
            field "created_at" (str (c.time_text r.chat.created_at))
              (field "partner" (profile_json c r.partner) end)))))

  abbrev pub response_items : List ChatResponse → Items
  response_items [] = nil
  response_items (r ∷ rs) = cons (response_json r) (response_items rs)

  abbrev pub inbox_body : List ChatResponse → ℕ → Json
  inbox_body responses ts =
      obj (field "chats" (arr (response_items responses)) (field "next_ts" (num ts) end))

module _ {W B : Type 0} (host : Host W) (c : Codec B) (echo : Echo W) (set : SortedSet W)
    (db : InboxDb W) where
  -- The chats of the ids, with the partners.
  unfoldable pub show_chats : String → List String → M W B (Option GoError)
  show_chats user ids = do
    chats ← call (db.chats ids)
    partners ← call (db.partners ids (parse_or_nil (c.parse_uuid user)))
    profiles ← call (db.profiles (map (λ (p : ChatMember). p.user_id) partners))
    reply echo 200 (
        inbox_body c
          (glue (chat_to_partner partners (λ _. none)) (profile_map profiles (λ _. none)) chats)
          (last_ts chats))

  -- What the table has, when Redis had nothing: it goes into Redis for a day, all of it with the
  -- time of now.
  unfoldable pub warm_up : String → List String → M W B (Option GoError)
  warm_up user [] = reply echo 200 (arr nil)
  warm_up user (x ∷ xs) = do
    now ← call host.now
    call (λ w. (tt, set.z_add_all (inbox_key user) (unix now) (x ∷ xs) w))
    call (λ w. (tt, set.expire (inbox_key user) (24 * hour) w))
    show_chats user (x ∷ xs)

  abbrev pub show_or_warm_up : String → List String → M W B (Option GoError)
  show_or_warm_up user [] = do ids ← call (db.pluck user); warm_up user ids
  show_or_warm_up user (x ∷ xs) = show_chats user (x ∷ xs)

  -- `limit` and `before_ts` are the texts of the parameters.
  unfoldable pub chats_as : String → String → String → M W B (Option GoError)
  chats_as limit before_ts user = do
    ids ←
        call (
          set.z_rev_range_by_score (inbox_key user) (max_score before_ts)
            (inbox_limit (atoi limit)))
    show_or_warm_up user ids

  unfoldable pub get_chats : UserValue → String → String → M W B (Option GoError)
  get_chats user limit before_ts = with_sender echo user (chats_as limit before_ts)
