-- ===== src/Service/Reactions/Crash.antt =====
-- The handler that the consumer builds (src/internal/service/reaction_service.go,
-- src/cmd/app/consumer/main.go) has no Redis client.
use mathlib.Core.List.{Memᴰ}
use go_service_bao_fight.Base.{
  ◌≡◌, refl, ap, ◌⊎◌, true, false, Option, none, some, List, [], ◌∷◌, arith, str_eq, length, ◌==◌,
  Option-cases, inl, inr, filter_map,
}
use go_service_bao_fight.Effects.{GoError, Env, Kafka}
use go_service_bao_fight.Models.{Reaction, action_like, action_dislike}
use go_service_bao_fight.Models.Codec.{Codec, decode_reaction}
use go_service_bao_fight.Outside.{Host, Redis}
use go_service_bao_fight.Service.Decoding.{decode_loop_lem, mem-filter_map}
use go_service_bao_fight.Service.Reactions.{
  ReactionDb, ReactionHandler, new_reaction_handler, done, panicked, check_match, crashed, finished,
  Processed, check_all, name_reaction, name_all, save_and_match, process,
}

-- A like or a dislike.
abbrev pub IsReaction : Reaction → Type 0
IsReaction r = (str_eq r.action action_dislike ≡ true) ⊎ (str_eq r.action action_like ≡ true)

module _ {W B : Type 0} (host : Host W) (c : Codec B) (db : ReactionDb W) (writer : Kafka W B)
    (rdb : Option (Redis W)) where
  abbrev built : ReactionHandler W B
  built = record { db = db; rdb = none; writer = writer }

  check_match_reaction :
      (r : Reaction) (env : Env W B)
      → IsReaction r
      → check_match host c built r env ≡ (panicked, env)
  unfolding check_match
  check_match_reaction r env h = ground arith

  check_match_cases :
      (r : Reaction) (env : Env W B)
      → (check_match host c built r env ≡ (panicked, env))
        ⊎ (check_match host c built r env ≡ (done, env))
  unfolding check_match
  check_match_cases r env = ground arith

  check_all_crashes :
      (r : Reaction) (rs : List Reaction) (env : Env W B)
      → Memᴰ r rs
      → IsReaction r
      → check_all host c built rs env ≡ (crashed, env)
  unfolding check_all
  check_all_crashes r [] env m h = elim m [ ]
  check_all_crashes r (x ∷ xs) env (Memᴰ.head p) h =
      ground (arith, check_match_reaction x env (rw p at h))
  check_all_crashes r (x ∷ xs) env (Memᴰ.tail m) h =
      ground (arith, check_match_cases x env, check_all_crashes r xs env m h)

module _ {W B : Type 0} (host : Host W) where
  action-name_reaction :
      (r : Reaction) (env : Env W B) → (name_reaction {B = B} host r env).0.action ≡ r.action
  action-name_reaction r env = ground arith

  -- Giving a reaction an id leaves its action.
  name_all-IsReaction :
      (r : Reaction) (rs : List Reaction) (env : Env W B)
      → Memᴰ r rs
      → IsReaction r
      → (r' : Reaction) × Memᴰ r' (name_all host rs env).0 × IsReaction r'
  unfolding name_all
  name_all-IsReaction r [] env m h = elim m [ ]
  name_all-IsReaction r (x ∷ xs) env (Memᴰ.head p) h =
      ((name_reaction host x env).0, Memᴰ.head refl, rw (action-name_reaction x env) (rw p at h))
  name_all-IsReaction r (x ∷ xs) env (Memᴰ.tail m) h =
      let (r', m', h') = name_all-IsReaction r xs (name_reaction host x env).1 m h in
      (r', Memᴰ.tail m', h')

length_of_mem : (r : Reaction) (rs : List Reaction) → Memᴰ r rs → (length rs == 0) ≡ false
length_of_mem r [] m = elim m [ ]
length_of_mem r (x ∷ xs) m = ground arith

module _ {W B : Type 0} (host : Host W) (c : Codec B) (db : ReactionDb W) (writer : Kafka W B)
    (rdb : Option (Redis W)) where
  -- What follows the insert of a batch that holds a reaction.
  abbrev pub after_insert : Option GoError → Processed
  after_insert none = crashed
  after_insert (some e) = finished (some e)

  save_and_match_crashes :
      (r : Reaction) (rs : List Reaction) (env : Env W B)
      → Memᴰ r rs
      → IsReaction r
      → (save_and_match host c (built host c db writer rdb) rs env).0
        ≡ after_insert (db.create_reactions rs (length rs) env.world).0
  unfolding save_and_match
  save_and_match_crashes r rs env m h =
      rw (length_of_mem r rs m)
        (elim (Option-cases (db.create_reactions rs (length rs) env.world).0) [
          | inl e ↦ rw e (ap (λ x. x.0) (check_all_crashes host c db writer rdb r rs _ m h))
          | inr (x, e) ↦ rw e refl
        ])

  -- The handler that `NewReactionHandler` builds, whatever Redis client it is given: for a batch of
  -- which some message parses as a like or a dislike, `Process` returns the error of the insert if the
  -- database refuses the reactions that parsed, and ends in a panic (the call of a method of the nil
  -- client) if it takes them. It never returns without an error.
  pub process_crashes :
      (d : B) (r : Reaction) (batch : List B) (env : Env W B)
      → Memᴰ d batch
      → decode_reaction c d ≡ some r
      → IsReaction r
      → let (rs, env') = name_all host (filter_map (decode_reaction c) batch) env in
        (process host c (new_reaction_handler db writer rdb) batch env).0
        ≡ after_insert (db.create_reactions rs (length rs) env'.world).0
  unfolding process new_reaction_handler
  process_crashes d r batch env m e h = rw (decode_loop_lem (decode_reaction c) batch) (
      let (r', m', h') =
        name_all-IsReaction host r _ env (mem-filter_map (decode_reaction c) m e) h in
      save_and_match_crashes r' _ _ m' h')
