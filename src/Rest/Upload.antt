-- ===== src/Rest/Upload.antt =====
-- `GetUploadURL` (src/internal/transport/rest/profile_photo_handler.go): an address to which the
-- browser uploads a photo.
pub mod Address
use go_service_bao_fight.Base.{ℕ, ◌*◌, String, ◌<>◌, Option, ◌⊎◌, inl, inr}
use go_service_bao_fight.Base.Json.{Json, str, obj, end, field}
use go_service_bao_fight.Base.Texts.{replace_first}
use go_service_bao_fight.Effects.{GoError, M, pure, ◌>>=◌, ◌>>◌, call, Echo, reply, error_body}
use go_service_bao_fight.Models.{Time, minute}
use go_service_bao_fight.Outside.{Host}
use go_service_bao_fight.Rest.Auth.{UserValue, with_sender}

-- `PresignedPutObject` of minio-go, by the bucket, the object and the time that the address is good
-- for; and `Time.Format` with the layout "20060102150405".
pub record Presigner (W : Type 0) : Type 0 where
  pub presigned_put_object : String → String → Time → W → (GoError ⊎ String) × W
  pub format : Time → String

-- `fmt.Sprintf("avatars/%s_%s.jpg", userID, uniqueSuffix)`
abbrev pub object_name : String → String → String
object_name user suffix = "avatars/" <> user <> "_" <> suffix <> ".jpg"

abbrev pub inner_address : String
inner_address = "http://minio:9000/profiles"

abbrev pub outer_address : String
outer_address = "http://localhost/s3-upload"

-- json.Marshal writes the keys of a map in order.
abbrev pub upload_body : String → String → Json
upload_body object url = obj (field "object_key" (str object) (field "upload_url" (str url) end))

module _ {W B : Type 0} (host : Host W) (echo : Echo W) (s3 : Presigner W) where
  abbrev pub answer_presigned : String → GoError ⊎ String → M W B (Option GoError)
  answer_presigned object (inl e) = reply echo 500 (error_body "failed to gen url")
  answer_presigned object (inr url) =
      reply echo 200 (upload_body object (replace_first url inner_address outer_address))

  unfoldable pub upload_as : String → M W B (Option GoError)
  upload_as user = do
    now ← call host.now
    presigned ←
        call (s3.presigned_put_object "profiles" (object_name user (s3.format now)) (15 * minute))
    answer_presigned (object_name user (s3.format now)) presigned

  unfoldable pub get_upload_url : UserValue → M W B (Option GoError)
  get_upload_url user = with_sender echo user upload_as
