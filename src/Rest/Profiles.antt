-- ===== src/Rest/Profiles.antt =====
-- `GetProfile` and `ChangeProfile` (src/internal/transport/rest/profile_user_handler.go) and
-- `SearchUser` (search_user_handler.go).
pub mod Own
use go_service_bao_fight.Base.{
  ℕ, String, ◌||◌, ltb, Option, none, some, List, str_eq, ◌==◌, if◌then◌else◌,
}
use go_service_bao_fight.Base.Json.{str, arr, obj, end, field}
use go_service_bao_fight.Base.Texts.{byte_len, contains}
use go_service_bao_fight.Effects.{
  GoError, profile_row, M, pure, ◌>>=◌, call, Create, Echo, reply, insert, error_body,
}
use go_service_bao_fight.Models.{Uuid, nil_uuid, zero_time, Profile, profile_before_create}
use go_service_bao_fight.Models.Codec.{Codec}
use go_service_bao_fight.Outside.{Host}
use go_service_bao_fight.Rest.Auth.{UserValue, with_sender}
use go_service_bao_fight.Rest.Discovery.{profile_json, profile_items}

-- The table of profiles. `find` is the profile of a user, none on any error; `upsert` is `Create`
-- that, where the user has a profile, changes the eight named columns; `search` is the query with
-- its limit of 20, none on an error.
pub record Profiles (W : Type 0) : Type 0 where
  pub find : Uuid → W → Option Profile × W
  pub upsert : Create W Profile
  pub search : String → W → Option (List Profile) × W

pub record ProfileInput : Type 0 where
  pub nick : String
  pub name : String
  pub age : ℕ  -- uint32
  pub gender : String
  pub sport : String
  pub level : String
  pub experience : String
  pub weight : String

-- The row of the request.
abbrev pub input_profile : Uuid → ProfileInput → Profile
input_profile user input = record {
  id = nil_uuid;
  user_id = user;
  nick_name = input.nick;
  user_name = input.name;
  age = input.age;
  gender = input.gender;
  sport = input.sport;
  level = input.level;
  experience = input.experience;
  weight = input.weight;
  photo_url = "";
  created_at = zero_time;
  updated_at = zero_time;
}

module _ {W B : Type 0} (c : Codec B) (echo : Echo W) (profiles : Profiles W) where
  unfoldable pub profile_as : String → M W B (Option GoError)
  profile_as user = elim (c.parse_uuid user) [
    | none ↦ reply echo 401 (error_body "invalid sender id")
    | some id ↦ do
      found ← call (profiles.find id)
      elim found [
        | none ↦ reply echo 404 (error_body "profile not found")
        | some profile ↦ reply echo 200 (profile_json c profile)
      ]
  ]

  unfoldable pub get_profile : UserValue → M W B (Option GoError)
  get_profile user = with_sender echo user profile_as

  -- `query` is the parameter; its length is counted in bytes.
  unfoldable pub search_user : String → M W B (Option GoError)
  search_user query =
      if ltb (byte_len query) 3 then reply echo 400 (error_body "min 3 characters") else (do
        found ← call (profiles.search query)
        elim found [
          | none ↦ reply echo 500 (error_body "search failed")
          | some rows ↦ reply echo 200 (arr (profile_items c rows))
        ])

module _ {W B : Type 0} (host : Host W) (c : Codec B) (echo : Echo W) (profiles : Profiles W) where
  -- gorm calls `BeforeCreate`: the id of the new row is nil, so one is made.
  unfoldable pub save_profile : Uuid → ProfileInput → M W B (Option GoError)
  unfolding profile_before_create
  save_profile user input = do
    fresh ← call host.new_uuid
    (err, _) ←
        insert profiles.upsert profile_row (profile_before_create fresh (input_profile user input))
    elim err [
      | some e ↦
          if contains e "duplicate key"
          then reply echo 409 (error_body "nickname taken")
          else reply echo 500 (error_body "database error")
      | none ↦ reply echo 200 (obj (field "user_id" (str (c.uuid_text user)) end))
    ]

  unfoldable pub change_checked : ProfileInput → String → M W B (Option GoError)
  change_checked input user =
      if str_eq input.nick ""
        || (str_eq input.name ""
            || (input.age == 0 || (str_eq input.gender "" || str_eq input.weight "")))
      then reply echo 400 (error_body "Name, age, gender and weight are required")
      else elim (c.parse_uuid user) [
        | none ↦ reply echo 401 (error_body "invalid sender id")
        | some id ↦ save_profile id input
      ]

  unfoldable pub change_as : Option ProfileInput → String → M W B (Option GoError)
  change_as none user = reply echo 400 (error_body "invalid request")
  change_as (some input) user = change_checked input user

  -- `body` is what `c.Bind` has read, if it could.
  unfoldable pub change_profile : UserValue → Option ProfileInput → M W B (Option GoError)
  change_profile user body = with_sender echo user (change_as body)
