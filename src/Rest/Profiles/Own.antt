-- ===== src/Rest/Profiles/Own.antt =====
-- A user reads and changes his own profile alone
-- (src/internal/transport/rest/profile_user_handler.go).
use go_service_bao_fight.Base.{ℕ, String, ◌≡◌, ◌≢◌, Option, none, some, List, [], ◌∷◌, ◌++◌}
use go_service_bao_fight.Base.Json.{Json, str, obj, end, field}
use go_service_bao_fight.Effects.{GoError, Effect, replied, inserted, profile_row, Env}
use go_service_bao_fight.Models.{Uuid, Profile}
use go_service_bao_fight.Models.Codec.{Codec}
use go_service_bao_fight.Rest.Profiles.{Profiles, ProfileInput}

-- The calls of one change, the newest first: a refusal, a row that the database refused, or a row
-- and a 200.
pub data ChangeTrace {B : Type 0} (c : Codec B) (P : Profile → Type 0)
    : List (Effect B) → Type 0 where
  refused : (status : ℕ) (body : Json) → status ≢ 200 → ChangeTrace c P (replied status body ∷ [])
  unsaved :
      (status : ℕ) (body : Json) (p : Profile) (e : GoError)
      → P p
      → status ≢ 200
      → ChangeTrace c P (replied status body ∷ inserted (profile_row p) (some e) ∷ [])
  saved :
      (user : Uuid) (p : Profile)
      → P p
      → ChangeTrace c P (
          replied 200 (obj (field "user_id" (str (c.uuid_text user)) end))
          ∷ inserted (profile_row p) none
          ∷ [])

abbrev pub ChangeTraced : {W B : Type 0} → Codec B → (Profile → Type 0) → Env W B → Env W B → Type 0
ChangeTraced {W} {B} c P env env' =
    (added : List (Effect B)) × (env'.log ≡ added ++ env.log) × ChangeTrace c P added

-- The row is of the user of the token, with the names of the request.
pub record IsOwn {B : Type 0} (c : Codec B) (user : String) (body : Option ProfileInput)
    (p : Profile) : Type 0 where
  pub input : ProfileInput
  pub asked : body ≡ some input
  pub own : c.parse_uuid user ≡ some p.user_id
  pub named : p.nick_name ≡ input.nick
  pub aged : p.age ≢ 0

-- gorm's `Create` keeps what the row had.
pub record KeepsProfile {W : Type 0} (profiles : Profiles W) : Type 0 where
  pub user_kept : (p : Profile) (w : W) → (profiles.upsert p w).0.1.user_id ≡ p.user_id
  pub nick_kept : (p : Profile) (w : W) → (profiles.upsert p w).0.1.nick_name ≡ p.nick_name
  pub age_kept : (p : Profile) (w : W) → (profiles.upsert p w).0.1.age ≡ p.age
