-- ===== src/Rest/Fans.antt =====
-- `GetLikingProfiles` (src/internal/transport/rest/reaction_handler.go): the profiles of those who
-- like a user and whom the user has not answered. A sorted set of Redis keeps their ids.
pub mod Cached
pub mod Shown
use go_service_bao_fight.Base.{
  ℕ, suc, ◌-◌, ◌*◌, String, ◌<>◌, ◌||◌, Option, none, some, List, [], ◌∷◌, map, ltb, ◌==◌, length,
  if◌then◌else◌,
}
use go_service_bao_fight.Base.Int.{ℤ, pos, negsuc, atoi}
use go_service_bao_fight.Base.Json.{Json, num, arr, obj, end, field}
use go_service_bao_fight.Effects.{GoError, M, pure, ◌>>=◌, ◌>>◌, call, Echo, reply, error_body}
use go_service_bao_fight.Models.{hour, unix, Reaction, Profile}
use go_service_bao_fight.Models.Codec.{Codec}
use go_service_bao_fight.Rest.Auth.{UserValue, with_sender}
use go_service_bao_fight.Rest.Discovery.{take, profile_items}
use go_service_bao_fight.Rest.Inbox.{max_score}

-- ZREVRANGEBYSCORE from a highest score to "-inf" with at most so many members (none on an error),
-- ZADD of members with their scores, EXPIRE, and ZSCORE (0 on an error, which the code drops).
pub record FanSet (W : Type 0) : Type 0 where
  pub z_rev_range_by_score : String → String → ℕ → W → Option (List String) × W
  pub z_add_scored : String → List (ℕ × String) → W → W
  pub expire : String → ℕ → W → W
  pub z_score : String → String → W → ℕ × W

-- `likes` is the query for at most 100 likes of the user that have no reaction of the user, the
-- newest first (empty on an error, which the code drops); `profiles` the rows of the users, or none
-- on an error.
pub record FansDb (W : Type 0) : Type 0 where
  pub likes : String → W → List Reaction × W
  pub profiles : List String → W → Option (List Profile) × W

abbrev pub fans_key : String → String
fans_key user = "fans:" <> user

-- `if limit <= 0 || limit > 50 { limit = 20 }`
unfoldable pub fans_limit : ℤ → ℕ
fans_limit (negsuc n) = 20
fans_limit (pos n) = if n == 0 || ltb 50 n then 20 else n

-- `fanIDs[len(fanIDs)-1]` of a list with a first member.
abbrev pub last_id : String → List String → String
last_id x [] = x
last_id x (y ∷ ys) = last_id y ys

module _ {B : Type 0} (c : Codec B) where
  abbrev pub from_text : Reaction → String
  from_text r = c.uuid_text r.from_user_id

  -- `zMembers`
  abbrev pub scored : Reaction → ℕ × String
  scored r = (unix r.created_at, from_text r)

  abbrev pub fans_body : List Profile → ℕ → Json
  fans_body profiles ts =
      obj (field "next_ts" (num ts) (field "profiles" (arr (profile_items c profiles)) end))

-- `if len(fanIDs) > limit { fanIDs = fanIDs[:limit] }`, for a first id and those behind it: as the
-- limit is positive, the first one stays, and this is what stays behind it.
unfoldable pub cut : ℕ → List String → List String
cut limit xs = if ltb limit (suc (length xs)) then take (limit - 1) xs else xs

module _ {W B : Type 0} (c : Codec B) (echo : Echo W) (set : FanSet W) (db : FansDb W) where
  -- `nextTS`: the score of the last id, if there are profiles.
  abbrev next_ts : String → String → List Profile → M W B ℕ
  next_ts user last [] = pure 0
  next_ts user last (p ∷ ps) = call (set.z_score (fans_key user) last)

  abbrev pub answer_fans : String → String → Option (List Profile) → M W B (Option GoError)
  answer_fans user last none = reply echo 500 (error_body "failed to fetch fans")
  answer_fans user last (some profiles) = do
    ts ← next_ts user last profiles
    reply echo 200 (fans_body c profiles ts)

  unfoldable pub show_fans : String → String → List String → M W B (Option GoError)
  show_fans user x xs = do
    profiles ← call (db.profiles (x ∷ xs))
    answer_fans user (last_id x xs) profiles

  -- What the table has, when Redis had nothing: it goes into Redis for a day.
  unfoldable pub warm_up : String → ℕ → List Reaction → M W B (Option GoError)
  warm_up user limit [] = reply echo 200 (fans_body c [] 0)
  warm_up user limit (r ∷ rs) = do
    call (λ w. (tt, set.z_add_scored (fans_key user) (map (scored c) (r ∷ rs)) w))
    call (λ w. (tt, set.expire (fans_key user) (24 * hour) w))
    show_fans user (from_text c r) (cut limit (map (from_text c) rs))

  abbrev pub show_or_warm_up : String → ℕ → Option (List String) → M W B (Option GoError)
  show_or_warm_up user limit none = do likes ← call (db.likes user); warm_up user limit likes
  show_or_warm_up user limit (some []) = do likes ← call (db.likes user); warm_up user limit likes
  show_or_warm_up user limit (some (x ∷ xs)) = show_fans user x xs

  -- `limit` and `before_ts` are the texts of the parameters.
  unfoldable pub fans_as : String → String → String → M W B (Option GoError)
  fans_as limit before_ts user = do
    page ←
        call
          (set.z_rev_range_by_score (fans_key user) (max_score before_ts) (fans_limit (atoi limit)))
    show_or_warm_up user (fans_limit (atoi limit)) page

  unfoldable pub get_liking_profiles : UserValue → String → String → M W B (Option GoError)
  get_liking_profiles user limit before_ts = with_sender echo user (fans_as limit before_ts)
