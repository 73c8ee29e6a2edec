-- ===== src/Rest/Fans/Shown.antt =====
-- Whom `GetLikingProfiles` shows (src/internal/transport/rest/reaction_handler.go).
use go_service_bao_fight.Base.{
  ◌++◌, ◌∙◌, ℕ, suc, zero, ◌-◌, ◌≤◌, ◌||◌, String, ◌≡◌, refl, ap, sym, inl, inr, Option, none, some,
  List, [], ◌∷◌, map, ltb, ◌==◌, length, arith, Bool-cases,
}
use mathlib.Core.Path.{subst}
use go_service_bao_fight.Base.Int.{ℤ, pos, negsuc, atoi}
use go_service_bao_fight.Effects.{Effect, Env, Echo, call, replied, error_body}
use go_service_bao_fight.Models.{Profile, Reaction}
use go_service_bao_fight.Models.Codec.{Codec}
use go_service_bao_fight.Rest.Auth.{UserValue, named_user}
use go_service_bao_fight.Rest.Auth.Outcomes.{with_sender_named}
use go_service_bao_fight.Rest.Discovery.{take}
use go_service_bao_fight.Rest.Discovery.Store.{length-take}
use go_service_bao_fight.Rest.Inbox.{max_score}
use go_service_bao_fight.Rest.Fans.Cached.{IsScored, new_members, at-show_or_warm_up}
use go_service_bao_fight.Rest.Fans.{
  FanSet, FansDb, fans_key, fans_limit, from_text, fans_body, last_id, cut, answer_fans, show_fans,
  warm_up, show_or_warm_up, fans_as, get_liking_profiles,
}

-- What the libraries give: a page holds at most as many ids as were asked for, the queries of
-- the likes succeed, and the tables stay as they are.
pub record Gives {W : Type 0} (set : FanSet W) (db : FansDb W) (likes : String → List Reaction)
    (profiles : List String → Option (List Profile)) : Type 0 where
  pub page_few :
      (key max : String) (n : ℕ) (w : W) (ids : List String)
      → (set.z_rev_range_by_score key max n w).0 ≡ some ids
      → length ids ≤ n
  pub likes_lem : (user : String) (w : W) → (db.likes user w).0 ≡ likes user
  pub profiles_lem : (ids : List String) (w : W) → (db.profiles ids w).0 ≡ profiles ids

-- The ids to show: the page of Redis if it has any, or the first ones that the table has.
abbrev pub fan_ids : ℕ → Option (List String) → List String → List String
fan_ids limit none fans = take limit fans
fan_ids limit (some []) fans = take limit fans
fan_ids limit (some (x ∷ xs)) fans = x ∷ xs

-- The answer to the rows that were found: a 500, or a 200 with exactly these rows, and with the time
-- 0 if there are none.
pub data FansAnswer {B : Type 0} (c : Codec B) (before after : List (Effect B))
    : Option (List Profile) → Type 0 where
  unread :
      after ≡ replied 500 (error_body "failed to fetch fans") ∷ before
      → FansAnswer c before after none
  nobody : after ≡ replied 200 (fans_body c [] 0) ∷ before → FansAnswer c before after (some [])
  somebody :
      (p : Profile) (ps : List Profile) (ts : ℕ)
      → after ≡ replied 200 (fans_body c (p ∷ ps) ts) ∷ before
      → FansAnswer c before after (some (p ∷ ps))

-- No ids are no rows: the code does not even ask.
abbrev pub rows_of : (List String → Option (List Profile)) → List String → Option (List Profile)
rows_of profiles [] = some []
rows_of profiles (x ∷ xs) = profiles (x ∷ xs)

fans_limit_bounds : (z : ℤ) → (1 ≤ fans_limit z) × (fans_limit z ≤ 50)
unfolding fans_limit
fans_limit_bounds (negsuc n) = (omega arith, omega arith)
fans_limit_bounds (pos n) = elim (Bool-cases (n == 0 || ltb 50 n)) [
  | inl e ↦ rw e (omega arith, omega arith)
  | inr e ↦ rw e (ground arith, ground arith)
]

take_all : (n : ℕ) (xs : List String) → length xs ≤ n → take n xs ≡ xs
take_all zero [] h = refl
take_all zero (x ∷ xs) h = absurd (omega (arith, h))
take_all (suc n) [] h = refl
take_all (suc n) (x ∷ xs) h = ap (λ ys. x ∷ ys) (take_all n xs (omega (arith, h)))

cut_lem : (n : ℕ) (x : String) (xs : List String) → x ∷ cut (suc n) xs ≡ take (suc n) (x ∷ xs)
unfolding cut
cut_lem n x xs =
    let e : suc n - 1 ≡ n = omega arith in
    elim (Bool-cases (ltb (suc n) (suc (length xs)))) [
      | inl b ↦ rw b (rw e refl)
      | inr b ↦ rw b (ap (λ ys. x ∷ ys) (sym (take_all n xs (ground arith))))
    ]

cut-take :
    (limit : ℕ) (x : String) (xs : List String) → 1 ≤ limit → x ∷ cut limit xs ≡ take limit (x ∷ xs)
cut-take zero x xs h = absurd (omega (arith, h))
cut-take (suc n) x xs h = cut_lem n x xs

take-cons :
    (limit : ℕ) (x : String) (xs : List String)
    → 1 ≤ limit
    → (ys : List String) × (take limit (x ∷ xs) ≡ x ∷ ys)
take-cons zero x xs h = absurd (omega (arith, h))
take-cons (suc n) x xs h = (take n xs, refl)

module _ {W B : Type 0} (c : Codec B) (echo : Echo W) (set : FanSet W) (db : FansDb W) where
  answer_fans-FansAnswer :
      (user last : String) (rows : Option (List Profile)) (env : Env W B)
      → FansAnswer c env.log (answer_fans c echo set db user last rows env).1.log rows
  answer_fans-FansAnswer user last none env = unread refl
  answer_fans-FansAnswer user last (some []) env = nobody refl
  answer_fans-FansAnswer user last (some (p ∷ ps)) env =
      somebody p ps (set.z_score (fans_key user) last env.world).0 refl

module _ {W B : Type 0} (c : Codec B) (echo : Echo W) (set : FanSet W) (db : FansDb W)
    (likes : String → List Reaction) (profiles : List String → Option (List Profile))
    (l : Gives set db likes profiles) (user : String) (limit : ℕ) (some_limit : 1 ≤ limit) where
  show_fans-FansAnswer :
      (x : String) (xs : List String) (env : Env W B)
      → FansAnswer c env.log (show_fans c echo set db user x xs env).1.log (profiles (x ∷ xs))
  unfolding show_fans
  show_fans-FansAnswer x xs env =
      subst
        (FansAnswer c env.log
          (answer_fans c echo set db user (last_id x xs) (db.profiles (x ∷ xs) env.world).0
            (call (db.profiles (x ∷ xs)) env).1).1.log)
        (l.profiles_lem (x ∷ xs) env.world)
        (answer_fans-FansAnswer c echo set db user (last_id x xs) (db.profiles (x ∷ xs) env.world).0
          (call (db.profiles (x ∷ xs)) env).1)

  warm_up-FansAnswer :
      (rs : List Reaction) (env : Env W B)
      → FansAnswer c env.log
          (warm_up c echo set db user limit rs env).1.log
          (rows_of profiles (take limit (map (from_text c) rs)))
  unfolding warm_up
  warm_up-FansAnswer [] env = rw (take_all limit [] (omega arith)) (nobody refl)
  warm_up-FansAnswer (r ∷ rs) env =
      let x = from_text c r in
      let xs = map (from_text c) rs in
      subst
        (λ ids.
          FansAnswer c env.log (warm_up c echo set db user limit (r ∷ rs) env).1.log
            (rows_of profiles ids))
        (cut-take limit x xs some_limit) (show_fans-FansAnswer x (cut limit xs) _)

  from_table :
      (env : Env W B)
      → FansAnswer c env.log
          (show_or_warm_up c echo set db user limit none env).1.log
          (rows_of profiles (take limit (map (from_text c) (likes user))))
  from_table env =
      subst
        (λ rs.
          FansAnswer c env.log
            (warm_up c echo set db user limit (db.likes user env.world).0
              (call (db.likes user) env).1).1.log
            (rows_of profiles (take limit (map (from_text c) rs))))
        (l.likes_lem user env.world)
        (warm_up-FansAnswer (db.likes user env.world).0 (call (db.likes user) env).1)

  show_or_warm_up-FansAnswer :
      (page : Option (List String)) (env : Env W B)
      → FansAnswer c env.log
          (show_or_warm_up c echo set db user limit page env).1.log
          (rows_of profiles (fan_ids limit page (map (from_text c) (likes user))))
  show_or_warm_up-FansAnswer none env = from_table env
  show_or_warm_up-FansAnswer (some []) env = from_table env
  show_or_warm_up-FansAnswer (some (x ∷ xs)) env = show_fans-FansAnswer x xs env

few :
    (limit : ℕ) (page : Option (List String)) (fans : List String)
    → ((ids : List String) → page ≡ some ids → length ids ≤ limit)
    → length (fan_ids limit page fans) ≤ limit
few limit none fans h = omega (arith, length-take limit fans)
few limit (some []) fans h = omega (arith, length-take limit fans)
few limit (some (x ∷ xs)) fans h = h (x ∷ xs) refl

-- A call of `GetLikingProfiles` for a user whom the token names gives one response, while the tables
-- stay as they are and the likes are read: a 500, or a 200 with the rows that the table has for some
-- ids. These are the page that Redis has below `before_ts`; or if Redis fails or has none there, they
-- are the first ones of those who like the user, whatever `before_ts`. There are never more ids than
-- the limit, which is from 1 to 50 whatever the text of the request's limit. To the sorted set the
-- call adds, if Redis had no page, all of those likes with their times, and else nothing.
pub get_liking_profiles-FansAnswer :
    {W B : Type 0} (c : Codec B) (echo : Echo W) (set : FanSet W) (db : FansDb W)
    (likes : String → List Reaction) (profiles : List String → Option (List Profile))
    (added : W → String → List (ℕ × String)) (value : UserValue) (user limit before_ts : String)
    (env : Env W B)
    → Gives set db likes profiles
    → IsScored echo set db added
    → named_user value ≡ some user
    → let count = fans_limit (atoi limit) in
      let page =
        (set.z_rev_range_by_score (fans_key user) (max_score before_ts) count env.world).0 in
      let ids = fan_ids count page (map (from_text c) (likes user)) in
      let after = (get_liking_profiles c echo set db value limit before_ts env).1 in
      FansAnswer c env.log after.log (rows_of profiles ids)
      × (length ids ≤ count)
      × (1 ≤ count)
      × (count ≤ 50)
      × (added after.world (fans_key user)
          ≡ new_members c page (likes user) ++ added env.world (fans_key user))
unfolding get_liking_profiles fans_as
get_liking_profiles-FansAnswer c echo set db likes profiles added value user limit before_ts env l k
      named =
    let count = fans_limit (atoi limit) in
    let bounds = fans_limit_bounds (atoi limit) in
    let key = fans_key user in
    let max = max_score before_ts in
    let (page, w) = set.z_rev_range_by_score key max count env.world in
    let env₁ = (call (set.z_rev_range_by_score key max count) env).1 in
    let start =
      with_sender_named echo (fans_as c echo set db limit before_ts) value user env named in
    (
      rw start
          (show_or_warm_up-FansAnswer c echo set db likes profiles l user count bounds.0 page env₁),
      few count page _ (l.page_few key max count env.world),
      bounds.0,
      bounds.1,
      rw start (
          at-show_or_warm_up c echo set db added k user count page env₁
          ∙ ap (λ rs. new_members c page rs ++ added w key) (l.likes_lem user w)
          ∙ ap (λ ms. new_members c page (likes user) ++ ms)
              (k.added-page key max count env.world)),
    )
