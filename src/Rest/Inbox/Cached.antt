-- ===== src/Rest/Inbox/Cached.antt =====
-- What `GetChats` puts into Redis (src/internal/transport/rest/chat_handler.go).
use go_service_bao_fight.Base.{ℕ, String, ◌≡◌, ap, ◌∙◌, List, [], ◌∷◌, ◌++◌, map}
use go_service_bao_fight.Base.Json.{Json}
use go_service_bao_fight.Effects.{Env, Echo, call}
use go_service_bao_fight.Models.{Uuid, unix}
use go_service_bao_fight.Models.Codec.{Codec}
use go_service_bao_fight.Outside.{Host}
use go_service_bao_fight.Rest.ReactionApi.{parse_or_nil}
use go_service_bao_fight.Rest.Inbox.{
  SortedSet, InboxDb, inbox_key, show_chats, warm_up, show_or_warm_up,
}

-- Members with one score.
abbrev pub with_score : ℕ → List String → List (ℕ × String)
with_score score ids = map (λ id. (score, id)) ids

-- `added` is what ZADD has put under a key, the last first; no other call puts anything there.
pub record IsAdded {W : Type 0} (host : Host W) (echo : Echo W) (set : SortedSet W) (db : InboxDb W)
    (added : W → String → List (ℕ × String)) : Type 0 where
  pub added-z_add :
      (k : String) (score : ℕ) (ids : List String) (w : W)
      → added (set.z_add_all k score ids w) k ≡ with_score score ids ++ added w k
  pub added-page :
      (k max : String) (n : ℕ) (w : W) → added (set.z_rev_range_by_score k max n w).1 k ≡ added w k
  pub added-expire : (k : String) (t : ℕ) (w : W) → added (set.expire k t w) k ≡ added w k
  pub added-now : (k : String) (w : W) → added (host.now w).1 k ≡ added w k
  pub added-pluck : (u k : String) (w : W) → added (db.pluck u w).1 k ≡ added w k
  pub added-chats :
      (ids : List String) (k : String) (w : W) → added (db.chats ids w).1 k ≡ added w k
  pub added-partners :
      (ids : List String) (u : Uuid) (k : String) (w : W)
      → added (db.partners ids u w).1 k ≡ added w k
  pub added-profiles :
      (us : List Uuid) (k : String) (w : W) → added (db.profiles us w).1 k ≡ added w k
  pub added-json :
      (status : ℕ) (body : Json) (k : String) (w : W)
      → added (echo.json status body w).1 k ≡ added w k

-- What a request adds: the ids of all chats of the user, if Redis had no page.
abbrev pub new_ids : List String → List String → List String
new_ids [] ids = ids
new_ids (x ∷ xs) ids = []

module _ {W B : Type 0} (host : Host W) (c : Codec B) (echo : Echo W) (set : SortedSet W)
    (db : InboxDb W) (added : W → String → List (ℕ × String)) (l : IsAdded host echo set db added)
    (user : String) where
  abbrev at : Env W B → List (ℕ × String)
  at env = added env.world (inbox_key user)

  at-show_chats :
      (ids : List String) (env : Env W B)
      → at (show_chats host c echo set db user ids env).1 ≡ at env
  unfolding show_chats
  at-show_chats ids env =
      l.added-json _ _ _ _
      ∙ l.added-profiles _ _ _
      ∙ l.added-partners ids (parse_or_nil (c.parse_uuid user)) _ _
      ∙ l.added-chats ids _ _

  at-warm_up :
      (ids : List String) (env : Env W B)
      → (score : ℕ) × (at (warm_up host c echo set db user ids env).1
          ≡ with_score score ids ++ at env)
  unfolding warm_up
  at-warm_up [] env = (0, l.added-json _ _ _ _)
  at-warm_up (x ∷ xs) env =
      let score = unix (host.now env.world).0 in
      (
        score,
        at-show_chats (x ∷ xs) _
            ∙ l.added-expire _ _ _
            ∙ l.added-z_add _ _ _ _
            ∙ ap (λ ms. with_score score (x ∷ xs) ++ ms) (l.added-now _ _),
      )

  pub at-show_or_warm_up :
      (page : List String) (env : Env W B)
      → (score : ℕ) × (at (show_or_warm_up host c echo set db user page env).1
          ≡ with_score score (new_ids page (db.pluck user env.world).0) ++ at env)
  at-show_or_warm_up [] env =
      let ids = (db.pluck user env.world).0 in
      let (score, e) = at-warm_up ids (call (db.pluck user) env).1 in
      (score, e ∙ ap (λ ms. with_score score ids ++ ms) (l.added-pluck user _ env.world))
  at-show_or_warm_up (x ∷ xs) env = (0, at-show_chats (x ∷ xs) env)
