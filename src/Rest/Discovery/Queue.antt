-- ===== src/Rest/Discovery/Queue.antt =====
-- What `GetDiscovery` does to the queue (src/internal/transport/rest/reaction_handler.go).
use go_service_bao_fight.Base.{
  ℕ, zero, suc, ◌≤◌, String, ◌≡◌, refl, Option, ap, ◌∙◌, List, [], ◌∷◌, ◌++◌, some, length, min,
  arith,
}
use go_service_bao_fight.Base.Int.{atoi}
use go_service_bao_fight.Base.Json.{Json, str, obj, field, end}
use go_service_bao_fight.Effects.{Env, Echo, replied}
use go_service_bao_fight.Models.{hour, Profile}
use go_service_bao_fight.Models.Codec.{Codec}
use go_service_bao_fight.Rest.Auth.{UserValue, named_user}
use go_service_bao_fight.Rest.Auth.Outcomes.{with_sender_named}
use go_service_bao_fight.Rest.Discovery.Store.{
  drop, take-drop, length-take, drop-length-take, IsQueue, IsProfileTable,
}
use go_service_bao_fight.Rest.Discovery.{
  RedisList, DiscoveryDb, take, discovery_key, discovery_limit, profiles_json, show_profiles,
  refill, show_or_refill, discover_as, get_discovery,
}

-- The answer for the ids that are shown: their profiles, or a note that there are none.
abbrev pub shown_body :
    {B : Type 0} → Codec B → (List String → Option (List Profile)) → List String → Json
shown_body c rows [] = obj (field "empty" (str "no more profiles") end)
shown_body c rows (x ∷ xs) = profiles_json c (rows (x ∷ xs))

-- What there is to show: the queue, or the candidates if it is empty.
abbrev pub waiting : List String → List String → List String
waiting [] candidates = candidates
waiting (x ∷ xs) candidates = x ∷ xs

-- How many are shown: one more than the limit, as the last index is included, and 10 after a refill.
abbrev pub shown_count : ℕ → List String → List String → ℕ
shown_count limit [] candidates = min 10 (length candidates)
shown_count limit (x ∷ xs) candidates = min (suc limit) (length (x ∷ xs))

-- One 200 that shows the profiles of ids that were taken from the front of what waited.
pub record IsServed {W B : Type 0} (show : List String → Json) (count : ℕ)
    (waited left : List String) (before after : Env W B) : Type 0 where
  pub ids : List String
  pub logged : after.log ≡ replied 200 (show ids) ∷ before.log
  pub front : ids ++ left ≡ waited
  pub counted : length ids ≡ count

shown_body-take :
    {B : Type 0} (c : Codec B) (rows : List String → Option (List Profile)) (n : ℕ) (x : String)
    (xs : List String)
    → 1 ≤ n
    → profiles_json c (rows (take n (x ∷ xs))) ≡ shown_body c rows (take n (x ∷ xs))
shown_body-take c rows zero x xs h = absurd (omega (arith, h))
shown_body-take c rows (suc n) x xs h = refl

module _ {W B : Type 0} (c : Codec B) (echo : Echo W) (list : RedisList W) (db : DiscoveryDb W)
    (queue : W → String → List String) (rows : W → List String → Option (List Profile))
    (l : IsQueue echo list db queue) (t : IsProfileTable list db rows) where
  -- The queue loses as many ids at its front as were shown.
  show_profiles_lem :
      (user : String) (ids : List String) (env : Env W B)
      → let after = (show_profiles c echo list db user ids env).1 in
        (queue after.world (discovery_key user)
          ≡ drop (length ids) (queue env.world (discovery_key user)))
        × (after.log ≡ replied 200 (profiles_json c (rows env.world ids)) ∷ env.log)
  unfolding show_profiles
  show_profiles_lem user ids env =
      let k = discovery_key user in
      let w₁ = (db.profiles ids env.world).1 in
      let w₂ = list.l_trim k (length ids) w₁ in
      rw (t.profiles_lem ids env.world) (
        ground (
          arith,
          l.queue-profiles ids k env.world,
          l.queue-l_trim k (length ids) w₁,
          l.queue-json 200 (profiles_json c (rows env.world ids)) w₂ k,
        ))

  -- The ids are the front of the queue.
  show_front :
      (user : String) (n : ℕ) (x : String) (xs : List String) (env : Env W B)
      → 1 ≤ n
      → queue env.world (discovery_key user) ≡ x ∷ xs
      → let after = (show_profiles c echo list db user (take n (x ∷ xs)) env).1 in
        IsServed
          (shown_body c (rows env.world))
          (min n (length (x ∷ xs)))
          (x ∷ xs)
          (queue after.world (discovery_key user))
          env
          after
  show_front user n x xs env h e =
      let q = x ∷ xs in
      let (left, logged) = show_profiles_lem user (take n q) env in
      record {
        ids = take n q;
        logged =
            logged
            ∙ ap (λ b. replied 200 b ∷ env.log) (shown_body-take c (rows env.world) n x xs h);
        front =
            ap (λ y. take n q ++ y) (left ∙ ap (drop (length (take n q))) e ∙ drop-length-take n q)
            ∙ take-drop n q;
        counted = length-take n q;
      }

  -- What is served at a later world with the same rows is served now.
  IsServed-from :
      {count : ℕ} {waited left : List String} {after : Env W B} (w : W) (env : Env W B)
      → ((ids : List String) → rows w ids ≡ rows env.world ids)
      → IsServed (shown_body c (rows w)) count waited left (record env { world = w }) after
      → IsServed (shown_body c (rows env.world)) count waited left env after
  IsServed-from w env h s = record {
    ids = s.ids;
    logged = s.logged ∙ ap (λ b. replied 200 b ∷ env.log) (same s.ids);
    front = s.front;
    counted = s.counted;
  }
    where
      same : (ids : List String) → shown_body c (rows w) ids ≡ shown_body c (rows env.world) ids
      same [] = refl
      same (y ∷ ys) = ap (profiles_json c) (h (y ∷ ys))

  refill_front :
      (user : String) (candidates : List String) (env : Env W B)
      → queue env.world (discovery_key user) ≡ []
      → let after = (refill c echo list db user candidates env).1 in
        IsServed
          (shown_body c (rows env.world))
          (min 10 (length candidates))
          candidates
          (queue after.world (discovery_key user))
          env
          after
  unfolding refill
  refill_front user [] env e =
      let body = obj (field "empty" (str "no more profiles") end) in
      record {
        ids = [];
        logged = refl;
        front = l.queue-json 200 body env.world (discovery_key user) ∙ e;
        counted = omega arith;
      }
  refill_front user (x ∷ xs) env e =
      let k = discovery_key user in
      let w₁ = list.r_push k (x ∷ xs) env.world in
      let w₂ = list.expire k hour w₁ in
      let n = min 10 (length (x ∷ xs)) in
      let filled =
        l.queue-expire k hour w₁ ∙ l.queue-r_push k (x ∷ xs) env.world ∙ ap (λ q. q ++ x ∷ xs) e in
      let s = show_front user n x xs (record env { world = w₂ }) (omega arith) filled in
      let u =
        IsServed-from w₂ env
          (λ ids. t.rows-expire k hour w₁ ids ∙ t.rows-r_push k (x ∷ xs) env.world ids) s in
      record { ids = u.ids; logged = u.logged; front = u.front; counted = u.counted ∙ omega arith }

  discover_as-IsServed :
      (limit user : String) (env : Env W B)
      → let k = discovery_key user in
        let w = (list.l_range k (discovery_limit (atoi limit)) env.world).1 in
        let q = queue env.world k in
        let candidates = (db.candidates user w).0 in
        let after = (discover_as c echo list db limit user env).1 in
        IsServed
          (shown_body c (rows env.world))
          (shown_count (discovery_limit (atoi limit)) q candidates)
          (waiting q candidates)
          (queue after.world k)
          env
          after
  unfolding discover_as
  discover_as-IsServed limit user env =
      let k = discovery_key user in
      let n = discovery_limit (atoi limit) in
      let w = (list.l_range k n env.world).1 in
      rw (l.l_range_lem k n env.world) (by_queue (queue env.world k) refl)
    where
      by_queue :
          (q : List String)
          → queue env.world (discovery_key user) ≡ q
          → let k = discovery_key user in
            let w = (list.l_range k (discovery_limit (atoi limit)) env.world).1 in
            let candidates = (db.candidates user w).0 in
            let after =
              (show_or_refill c echo list db user
                (take (suc (discovery_limit (atoi limit))) q)
                (record env { world = w })).1 in
            IsServed
              (shown_body c (rows env.world))
              (shown_count (discovery_limit (atoi limit)) q candidates)
              (waiting q candidates)
              (queue after.world k)
              env
              after
      by_queue [] e =
          let k = discovery_key user in
          let n = discovery_limit (atoi limit) in
          let w = (list.l_range k n env.world).1 in
          let w' = (db.candidates user w).1 in
          let s =
            refill_front user (db.candidates user w).0 (record env { world = w' })
              (l.queue-candidates user k w ∙ l.queue-l_range k n env.world ∙ e) in
          IsServed-from w' env
            (λ ids. t.rows-candidates user w ids ∙ t.rows-l_range k n env.world ids) s
      by_queue (x ∷ xs) e =
          let k = discovery_key user in
          let n = discovery_limit (atoi limit) in
          let w = (list.l_range k n env.world).1 in
          IsServed-from w env (t.rows-l_range k n env.world) (
            show_front user (suc n) x xs (record env { world = w }) (omega arith)
              (l.queue-l_range k n env.world ∙ e))

-- For a user whom the token names, a call of `GetDiscovery` is one 200 with the profiles that the
-- database has for the front of the user's queue, or of the candidates of the database if the queue
-- is empty, and leaves the rest as the queue: nothing is lost and nothing is shown again. From a
-- queue one more than the limit is shown if there are as many, from the candidates at most 10. If
-- there is nobody to show, the answer is a note of that, and if the query for the profiles fails, it
-- is null.
pub get_discovery-IsServed :
    {W B : Type 0} (c : Codec B) (echo : Echo W) (list : RedisList W) (db : DiscoveryDb W)
    (queue : W → String → List String) (rows : W → List String → Option (List Profile))
    (value : UserValue) (user limit : String) (env : Env W B)
    → IsQueue echo list db queue
    → IsProfileTable list db rows
    → named_user value ≡ some user
    → let k = discovery_key user in
      let n = discovery_limit (atoi limit) in
      let q = queue env.world k in
      let candidates = (db.candidates user (list.l_range k n env.world).1).0 in
      let after = (get_discovery c echo list db value limit env).1 in
      IsServed
        (shown_body c (rows env.world))
        (shown_count n q candidates)
        (waiting q candidates)
        (queue after.world k)
        env
        after
unfolding get_discovery
get_discovery-IsServed c echo list db queue rows value user limit env l t named =
    rw (with_sender_named echo (discover_as c echo list db limit) value user env named)
      (discover_as-IsServed c echo list db queue rows l t limit user env)
