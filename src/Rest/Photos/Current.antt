-- ===== src/Rest/Photos/Current.antt =====
-- The current photo of a user after `ConfirmUpload`
-- (src/internal/transport/rest/profile_photo_handler.go).
use go_service_bao_fight.Base.{
  ℕ, String, ◌≡◌, Bool, true, false, none, some, List, [], ◌∷◌, if◌then◌else◌,
}
use go_service_bao_fight.Base.Json.{Json}
use go_service_bao_fight.Effects.{GoError, Echo}
use go_service_bao_fight.Models.{Uuid, ProfileAvatar}
use go_service_bao_fight.Models.Codec.{Codec}
use go_service_bao_fight.Outside.{Host}
use go_service_bao_fight.Rest.Photos.{Avatars}

-- `current w u`: the URLs of the avatars of `u` that are marked current; `saved w u`: those at the
-- start of the transaction. A commit that fails has rolled back. A row that is created is current if
-- its column says so. A statement that fails has aborted the transaction, and then every later one
-- fails.
pub record IsAvatarTable {W : Type 0} (host : Host W) (echo : Echo W) (avatars : Avatars W)
    (current saved : W → Uuid → List String) (aborted : W → Bool) : Type 0 where
  pub begin_lem :
      (u : Uuid) (w : W)
      → (current (avatars.transactions.begin w) u ≡ current w u)
        × (saved (avatars.transactions.begin w) u ≡ current w u)
  pub clear_lem :
      (u : Uuid) (w : W)
      → (aborted (avatars.clear_current u w) ≡ false → current (avatars.clear_current u w) u ≡ [])
        × (saved (avatars.clear_current u w) u ≡ saved w u)
  pub uuid_lem :
      (u : Uuid) (w : W)
      → (current (host.new_uuid w).1 u ≡ current w u)
        × (saved (host.new_uuid w).1 u ≡ saved w u)
        × (aborted (host.new_uuid w).1 ≡ aborted w)
  pub create_lem :
      (a : ProfileAvatar) (w : W)
      → (saved (avatars.create a w).1 a.user_id ≡ saved w a.user_id)
        × ((avatars.create a w).0.0 ≡ none
            → (aborted w ≡ false)
              × (current (avatars.create a w).1 a.user_id
                  ≡ (if a.is_current then a.url ∷ current w a.user_id else current w a.user_id)))
  -- The table keeps these columns of the row as they are given.
  pub columns_lem :
      (a : ProfileAvatar) (w : W)
      → let a' = (avatars.create a w).0.1 in
        (a'.user_id ≡ a.user_id) × (a'.url ≡ a.url) × (a'.is_current ≡ a.is_current)
  pub photo_lem :
      (u : Uuid) (url : String) (w : W)
      → (current (avatars.set_photo u url w).1 u ≡ current w u)
        × (saved (avatars.set_photo u url w).1 u ≡ saved w u)
  pub rollback_lem : (u : Uuid) (w : W) → current (avatars.transactions.rollback w) u ≡ saved w u
  pub commit_done :
      (u : Uuid) (w : W)
      → (avatars.transactions.commit w).0 ≡ none
      → current (avatars.transactions.commit w).1 u ≡ current w u
  pub commit_failed :
      (u : Uuid) (w : W) (e : GoError)
      → (avatars.transactions.commit w).0 ≡ some e
      → current (avatars.transactions.commit w).1 u ≡ saved w u
  pub json_lem :
      (status : ℕ) (body : Json) (u : Uuid) (w : W)
      → current (echo.json status body w).1 u ≡ current w u

-- A row of this user for the photo, marked current.
abbrev pub IsNewPhoto : Uuid → String → ProfileAvatar → Type 0
IsNewPhoto user url a = (a.user_id ≡ user) × (a.url ≡ url) × (a.is_current ≡ true)
