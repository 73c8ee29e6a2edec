-- ===== src/Rest/Fans/Cached.antt =====
-- What `GetLikingProfiles` puts into Redis (src/internal/transport/rest/reaction_handler.go).
use go_service_bao_fight.Base.{
  ℕ, String, ◌≡◌, ap, ◌∙◌, Option, none, some, List, [], ◌∷◌, ◌++◌, map,
}
use go_service_bao_fight.Base.Json.{Json}
use go_service_bao_fight.Effects.{Env, Echo, call}
use go_service_bao_fight.Models.{Profile, Reaction}
use go_service_bao_fight.Models.Codec.{Codec}
use go_service_bao_fight.Rest.Fans.{
  FanSet, FansDb, fans_key, from_text, scored, last_id, cut, answer_fans, show_fans, warm_up,
  show_or_warm_up,
}

-- `added` is what ZADD has put under a key, the last first; no other call puts anything there.
pub record IsScored {W : Type 0} (echo : Echo W) (set : FanSet W) (db : FansDb W)
    (added : W → String → List (ℕ × String)) : Type 0 where
  pub added-z_add :
      (k : String) (xs : List (ℕ × String)) (w : W)
      → added (set.z_add_scored k xs w) k ≡ xs ++ added w k
  pub added-page :
      (k max : String) (n : ℕ) (w : W) → added (set.z_rev_range_by_score k max n w).1 k ≡ added w k
  pub added-expire : (k : String) (t : ℕ) (w : W) → added (set.expire k t w) k ≡ added w k
  pub added-z_score : (k id : String) (w : W) → added (set.z_score k id w).1 k ≡ added w k
  pub added-likes : (u k : String) (w : W) → added (db.likes u w).1 k ≡ added w k
  pub added-profiles :
      (ids : List String) (k : String) (w : W) → added (db.profiles ids w).1 k ≡ added w k
  pub added-json :
      (status : ℕ) (body : Json) (k : String) (w : W)
      → added (echo.json status body w).1 k ≡ added w k

-- What a request adds: all likes of the table with their times, if Redis had no page.
abbrev pub new_members :
    {B : Type 0} → Codec B → Option (List String) → List Reaction → List (ℕ × String)
new_members c none likes = map (scored c) likes
new_members c (some []) likes = map (scored c) likes
new_members c (some (x ∷ xs)) likes = []

module _ {W B : Type 0} (c : Codec B) (echo : Echo W) (set : FanSet W) (db : FansDb W)
    (added : W → String → List (ℕ × String)) (l : IsScored echo set db added) (user : String) where
  abbrev at : Env W B → List (ℕ × String)
  at env = added env.world (fans_key user)

  at-answer_fans :
      (last : String) (rows : Option (List Profile)) (env : Env W B)
      → at (answer_fans c echo set db user last rows env).1 ≡ at env
  at-answer_fans last none env = l.added-json _ _ _ _
  at-answer_fans last (some []) env = l.added-json _ _ _ _
  at-answer_fans last (some (p ∷ ps)) env = l.added-json _ _ _ _ ∙ l.added-z_score _ _ _

  at-show_fans :
      (x : String) (xs : List String) (env : Env W B)
      → at (show_fans c echo set db user x xs env).1 ≡ at env
  unfolding show_fans
  at-show_fans x xs env =
      at-answer_fans (last_id x xs) (db.profiles (x ∷ xs) env.world).0
        (call (db.profiles (x ∷ xs)) env).1
      ∙ l.added-profiles (x ∷ xs) (fans_key user) env.world

  at-warm_up :
      (limit : ℕ) (rs : List Reaction) (env : Env W B)
      → at (warm_up c echo set db user limit rs env).1 ≡ map (scored c) rs ++ at env
  unfolding warm_up
  at-warm_up limit [] env = l.added-json _ _ _ _
  at-warm_up limit (r ∷ rs) env =
      at-show_fans (from_text c r) (cut limit (map (from_text c) rs)) _
      ∙ l.added-expire _ _ _
      ∙ l.added-z_add _ _ _

  from_table :
      (limit : ℕ) (env : Env W B)
      → at (show_or_warm_up c echo set db user limit none env).1
        ≡ map (scored c) (db.likes user env.world).0 ++ at env
  from_table limit env =
      at-warm_up limit (db.likes user env.world).0 (call (db.likes user) env).1
      ∙ ap (λ ms. map (scored c) (db.likes user env.world).0 ++ ms)
          (l.added-likes user (fans_key user) env.world)

  pub at-show_or_warm_up :
      (limit : ℕ) (page : Option (List String)) (env : Env W B)
      → at (show_or_warm_up c echo set db user limit page env).1
        ≡ new_members c page (db.likes user env.world).0 ++ at env
  at-show_or_warm_up limit none env = from_table limit env
  at-show_or_warm_up limit (some []) env = from_table limit env
  at-show_or_warm_up limit (some (x ∷ xs)) env = at-show_fans x xs env
