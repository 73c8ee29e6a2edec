-- ===== src/Rest/Photos.antt =====
-- `ConfirmUpload` (src/internal/transport/rest/profile_photo_handler.go): the photo that was
-- uploaded becomes the current one.
pub mod Current
use go_service_bao_fight.Base.{String, ◌<>◌, true, Option, none, some, str_eq, if◌then◌else◌}
use go_service_bao_fight.Base.Json.{str, obj, end, field}
use go_service_bao_fight.Effects.{
  GoError, avatar_row, M, pure, ◌>>=◌, ◌>>◌, call, Create, Echo, reply, insert, error_body,
}
use go_service_bao_fight.Models.{Uuid, ProfileAvatar, zero_time}
use go_service_bao_fight.Models.Codec.{Codec}
use go_service_bao_fight.Outside.{Host, Transactions, transaction}
use go_service_bao_fight.Rest.Auth.{UserValue, with_sender}
use go_service_bao_fight.Rest.ReactionApi.{parse_or_nil}

-- The statements of the transaction; the error of `clear_current` is dropped by the code.
pub record Avatars (W : Type 0) : Type 0 where
  pub transactions : Transactions W
  pub clear_current : Uuid → W → W
  pub create : Create W ProfileAvatar
  pub set_photo : Uuid → String → W → Option GoError × W

abbrev pub photo_url : String → String
photo_url key = "/storage/" <> key

module _ {W B : Type 0} (host : Host W) (c : Codec B) (echo : Echo W) (avatars : Avatars W) where
  -- The function that is handed to `Transaction`.
  unfoldable pub replace_avatar : Uuid → String → M W B (Option GoError)
  replace_avatar user url = do
    call (λ w. (tt, avatars.clear_current user w))
    id ← call host.new_uuid
    (err, _) ←
        insert avatars.create avatar_row
          (record { id = id; user_id = user; url = url; is_current = true; created_at = zero_time })
    elim err [ some e ↦ pure (some e) | none ↦ call (avatars.set_photo user url) ]

  -- The error of the transaction is dropped.
  unfoldable pub confirm_as : String → String → M W B (Option GoError)
  confirm_as key user = do
    transaction avatars.transactions
        (replace_avatar (parse_or_nil (c.parse_uuid user)) (photo_url key))
    reply echo 200 (obj (field "photo_url" (str (photo_url key)) end))

  -- `key` is "" if `c.Bind` could not read it; its error is dropped.
  unfoldable pub confirm_upload : UserValue → String → M W B (Option GoError)
  confirm_upload user key =
      if str_eq key ""
      then reply echo 400 (error_body "invalid request")
      else with_sender echo user (confirm_as key)
