-- ===== src/Rest/Discovery.antt =====
-- `GetDiscovery` (src/internal/transport/rest/reaction_handler.go): a queue of profiles to show,
-- kept in a Redis list.
pub mod Store
pub mod Queue
use go_service_bao_fight.Base.{
  ℕ, suc, zero, String, ◌<>◌, ◌||◌, List, [], ◌∷◌, Option, none, some, ltb, ◌==◌, length, min,
  if◌then◌else◌,
}
use go_service_bao_fight.Base.Int.{ℤ, pos, negsuc, atoi}
use go_service_bao_fight.Base.Json.{Json, num, str, arr, obj, null, Items, nil, cons, end, field}
use go_service_bao_fight.Effects.{GoError, M, pure, ◌>>=◌, ◌>>◌, call, Echo, reply}
use go_service_bao_fight.Models.{Profile, hour}
use go_service_bao_fight.Models.Codec.{Codec}
use go_service_bao_fight.Rest.Auth.{UserValue, with_sender}

-- LRANGE of a list from 0 to a last index (empty on an error, which the code drops), RPUSH, EXPIRE,
-- and LTRIM to what begins at an index.
pub record RedisList (W : Type 0) : Type 0 where
  pub l_range : String → ℕ → W → List String × W
  pub r_push : String → List String → W → W
  pub expire : String → ℕ → W → W
  pub l_trim : String → ℕ → W → W

-- `candidates` is the query for at most 100 users without a reaction of this user, and `profiles`
-- the rows of the given users, or none on an error, which the code drops.
pub record DiscoveryDb (W : Type 0) : Type 0 where
  pub candidates : String → W → List String × W
  pub profiles : List String → W → Option (List Profile) × W

abbrev pub take : ℕ → List String → List String
take zero xs = []
take (suc n) [] = []
take (suc n) (x ∷ xs) = x ∷ take n xs

abbrev pub discovery_key : String → String
discovery_key user = "discovery_queue:" <> user

-- `if limit <= 0 || limit > 20 { limit = 10 }`
unfoldable pub discovery_limit : ℤ → ℕ
discovery_limit (negsuc n) = 10
discovery_limit (pos n) = if n == 0 || ltb 20 n then 10 else n

module _ {B : Type 0} (c : Codec B) where
  abbrev pub profile_json : Profile → Json
  profile_json p = obj (
      field "ID" (str (c.uuid_text p.id)) (
        field "user_id" (str (c.uuid_text p.user_id)) (
          field "nick_name" (str p.nick_name) (
            field "user_name" (str p.user_name) (
              field "Age" (num p.age) (
                field "Gender" (str p.gender) (
                  field "Sport" (str p.sport) (
                    field "Level" (str p.level) (
                      field "Experience" (str p.experience) (
                        field "Weight" (str p.weight) (
                          field "PhotoURL" (str p.photo_url) (
                            field "CreatedAt" (str (c.time_text p.created_at))
                              (field "UpdatedAt" (str (c.time_text p.updated_at)) end)))))))))))))

  abbrev pub profile_items : List Profile → Items
  profile_items [] = nil
  profile_items (p ∷ ps) = cons (profile_json p) (profile_items ps)

  -- The slice is nil, which is written as null, if the query failed.
  abbrev pub profiles_json : Option (List Profile) → Json
  profiles_json none = null
  profiles_json (some ps) = arr (profile_items ps)

module _ {W B : Type 0} (c : Codec B) (echo : Echo W) (list : RedisList W)
    (db : DiscoveryDb W) where
  -- The profiles of the ids, which then leave the queue.
  unfoldable pub show_profiles : String → List String → M W B (Option GoError)
  show_profiles user ids = do
    profiles ← call (db.profiles ids)
    call (λ w. (tt, list.l_trim (discovery_key user) (length ids) w))
    reply echo 200 (profiles_json c profiles)

  -- What to show, once the candidates are known.
  unfoldable pub refill : String → List String → M W B (Option GoError)
  refill user [] = reply echo 200 (obj (field "empty" (str "no more profiles") end))
  refill user (x ∷ xs) = do
    call (λ w. (tt, list.r_push (discovery_key user) (x ∷ xs) w))
    call (λ w. (tt, list.expire (discovery_key user) hour w))
    show_profiles user (take (min 10 (length (x ∷ xs))) (x ∷ xs))

  abbrev show_or_refill : String → List String → M W B (Option GoError)
  show_or_refill user [] = do candidates ← call (db.candidates user); refill user candidates
  show_or_refill user (x ∷ xs) = show_profiles user (x ∷ xs)

  -- `limit` is the text of the parameter.
  unfoldable pub discover_as : String → String → M W B (Option GoError)
  discover_as limit user = do
    ids ← call (list.l_range (discovery_key user) (discovery_limit (atoi limit)))
    show_or_refill user ids

  unfoldable pub get_discovery : UserValue → String → M W B (Option GoError)
  get_discovery user limit = with_sender echo user (discover_as limit)
