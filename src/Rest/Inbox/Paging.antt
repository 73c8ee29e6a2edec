-- ===== src/Rest/Inbox/Paging.antt =====
-- What `GetChats` shows (src/internal/transport/rest/chat_handler.go).
use go_service_bao_fight.Base.{ℕ, ◌++◌, String, ◌≡◌, refl, ap, ◌∙◌, some, List, [], ◌∷◌, map}
use go_service_bao_fight.Base.Int.{atoi}
use go_service_bao_fight.Base.Json.{Json, arr, nil}
use go_service_bao_fight.Effects.{Env, Echo, call, replied}
use go_service_bao_fight.Models.{Uuid, Chat, ChatMember, Profile}
use go_service_bao_fight.Models.Codec.{Codec}
use go_service_bao_fight.Outside.{Host}
use go_service_bao_fight.Rest.Auth.{UserValue, named_user}
use go_service_bao_fight.Rest.Auth.Outcomes.{with_sender_named}
use go_service_bao_fight.Rest.Discovery.Queue.{waiting}
use go_service_bao_fight.Rest.ReactionApi.{parse_or_nil}
use go_service_bao_fight.Rest.Inbox.Cached.{IsAdded, with_score, new_ids, at-show_or_warm_up}
use go_service_bao_fight.Rest.Inbox.{
  SortedSet, InboxDb, inbox_key, inbox_limit, max_score, last_ts, inbox_body, show_chats, warm_up,
  show_or_warm_up, chats_as, get_chats,
}
use go_service_bao_fight.Rest.Inbox.Partners.{with_partner, glue-map}

-- What the tables hold, as functions of the queries.
pub record InboxTables : Type 0 where
  pub chat_ids : String → List String
  pub chats : List String → List Chat
  pub members : List String → Uuid → List ChatMember
  pub profiles : List Uuid → List Profile

-- The queries succeed, and the tables stay as they are.
pub record Reads {W : Type 0} (db : InboxDb W) (tables : InboxTables) : Type 0 where
  pub pluck_lem : (user : String) (w : W) → (db.pluck user w).0 ≡ tables.chat_ids user
  pub chats_lem : (ids : List String) (w : W) → (db.chats ids w).0 ≡ tables.chats ids
  pub partners_lem :
      (ids : List String) (user : Uuid) (w : W)
      → (db.partners ids user w).0 ≡ tables.members ids user
  pub profiles_lem : (users : List Uuid) (w : W) → (db.profiles users w).0 ≡ tables.profiles users

module _ {B : Type 0} (c : Codec B) (tables : InboxTables) (user : String) where
  -- The answer for the ids of some chats: each chat that the table has, with its partner.
  abbrev pub inbox : List String → Json
  inbox [] = arr nil
  inbox (x ∷ xs) =
      let members = tables.members (x ∷ xs) (parse_or_nil (c.parse_uuid user)) in
      let profiles = tables.profiles (map (λ (p : ChatMember). p.user_id) members) in
      inbox_body c (map (with_partner members profiles) (tables.chats (x ∷ xs)))
        (last_ts (tables.chats (x ∷ xs)))

module _ {W B : Type 0} (host : Host W) (c : Codec B) (echo : Echo W) (set : SortedSet W)
    (db : InboxDb W) (tables : InboxTables) (l : Reads db tables) (user : String) where
  log-show_chats :
      (x : String) (xs : List String) (env : Env W B)
      → (show_chats host c echo set db user (x ∷ xs) env).1.log
        ≡ replied 200 (inbox c tables user (x ∷ xs)) ∷ env.log
  unfolding show_chats
  log-show_chats x xs env =
      let ids = x ∷ xs in
      let uid = parse_or_nil (c.parse_uuid user) in
      let w₁ = (db.chats ids env.world).1 in
      let w₂ = (db.partners ids uid w₁).1 in
      let members = tables.members ids uid in
      rw (l.chats_lem ids env.world) (
        rw (l.partners_lem ids uid w₁) (
          rw (l.profiles_lem (map (λ (p : ChatMember). p.user_id) members) w₂) (
            rw
              (glue-map members (tables.profiles (map (λ (p : ChatMember). p.user_id) members))
                (tables.chats ids))
              refl)))

  log-warm_up :
      (ids : List String) (env : Env W B)
      → (warm_up host c echo set db user ids env).1.log
        ≡ replied 200 (inbox c tables user ids) ∷ env.log
  unfolding warm_up
  log-warm_up [] env = refl
  log-warm_up (x ∷ xs) env = log-show_chats x xs _

  log-show_or_warm_up :
      (page : List String) (env : Env W B)
      → (show_or_warm_up host c echo set db user page env).1.log
        ≡ replied 200 (inbox c tables user (waiting page (tables.chat_ids user))) ∷ env.log
  log-show_or_warm_up [] env =
      log-warm_up (db.pluck user env.world).0 (call (db.pluck user) env).1
      ∙ ap (λ ids. replied 200 (inbox c tables user ids) ∷ env.log) (l.pluck_lem user env.world)
  log-show_or_warm_up (x ∷ xs) env = log-show_chats x xs env

-- A call of `GetChats` for a user whom the token names gives one response, a 200, while the tables
-- stay as they are. Its ids are the page that Redis has below `before_ts`, up to the limit; but if
-- that page is empty, then all chats of the user are shown, whatever the limit and `before_ts`. Each
-- chat that the table has for the ids comes with the profile of the user of its last member row
-- other than the user's, or with an empty profile if there is no such row or profile. To the sorted
-- set the call adds, if Redis had no page, all chats of the user with one score, and else nothing.
pub get_chats_lem :
    {W B : Type 0} (host : Host W) (c : Codec B) (echo : Echo W) (set : SortedSet W)
    (db : InboxDb W) (tables : InboxTables) (added : W → String → List (ℕ × String))
    (value : UserValue) (user limit before_ts : String) (env : Env W B)
    → Reads db tables
    → IsAdded host echo set db added
    → named_user value ≡ some user
    → let page =
        (set.z_rev_range_by_score
          (inbox_key user)
          (max_score before_ts)
          (inbox_limit (atoi limit))
          env.world).0 in
      let after = (get_chats host c echo set db value limit before_ts env).1 in
      (after.log
        ≡ replied 200 (inbox c tables user (waiting page (tables.chat_ids user))) ∷ env.log)
      × (score : ℕ) × (added after.world (inbox_key user)
          ≡ with_score score (new_ids page (tables.chat_ids user))
            ++ added env.world (inbox_key user))
unfolding get_chats chats_as
get_chats_lem host c echo set db tables added value user limit before_ts env l k named =
    let key = inbox_key user in
    let count = inbox_limit (atoi limit) in
    let max = max_score before_ts in
    let (page, w) = set.z_rev_range_by_score key max count env.world in
    let env₁ = (call (set.z_rev_range_by_score key max count) env).1 in
    let start =
      with_sender_named echo (chats_as host c echo set db limit before_ts) value user env named in
    let (score, e) = at-show_or_warm_up host c echo set db added k user page env₁ in
    (
      rw start (log-show_or_warm_up host c echo set db tables l user page env₁),
      score,
      rw start (
          e
          ∙ ap (λ ids. with_score score (new_ids page ids) ++ added w key) (l.pluck_lem user w)
          ∙ ap (λ ms. with_score score (new_ids page (tables.chat_ids user)) ++ ms)
              (k.added-page key max count env.world)),
    )
