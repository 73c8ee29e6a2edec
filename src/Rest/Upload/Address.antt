-- ===== src/Rest/Upload/Address.antt =====
-- The address that `GetUploadURL` gives out (src/internal/transport/rest/profile_photo_handler.go).
use go_service_bao_fight.Base.{◌*◌, String, ◌<>◌, ◌≡◌, refl, ◌⊎◌, inl, inr, ◌∷◌, some}
use go_service_bao_fight.Base.Texts.Prefix.{IsReplaced, replace_first_lem}
use go_service_bao_fight.Effects.{GoError, Env, Echo, replied, error_body}
use go_service_bao_fight.Models.{minute}
use go_service_bao_fight.Outside.{Host}
use go_service_bao_fight.Rest.Auth.{UserValue, named_user}
use go_service_bao_fight.Rest.Auth.Outcomes.{with_sender_named}
use go_service_bao_fight.Rest.Upload.{
  Presigner, object_name, inner_address, outer_address, upload_body, answer_presigned, upload_as,
  get_upload_url,
}

-- The answer for what minio-go returned for this object: a refusal, or the object and a URL in which
-- the outer address stands in place of the inner one, if that is there.
abbrev pub Upload : {W B : Type 0} → String → GoError ⊎ String → Env W B → Env W B → Type 0
Upload object (inl e) before after =
    after.log ≡ replied 500 (error_body "failed to gen url") ∷ before.log
Upload object (inr url) before after =
    (shown : String) × IsReplaced url inner_address outer_address shown
    × (after.log ≡ replied 200 (upload_body object shown) ∷ before.log)

module _ {W B : Type 0} (host : Host W) (echo : Echo W) (s3 : Presigner W) where
  answer_presigned-Upload :
      (object : String) (r : GoError ⊎ String) (w : W) (env : Env W B)
      → Upload object r env (answer_presigned host echo s3 object r (record env { world = w })).1
  answer_presigned-Upload object (inl e) w env = refl
  answer_presigned-Upload object (inr url) w env =
      (_, replace_first_lem url "h" "ttp://minio:9000/profiles" outer_address, refl)

  upload_as-Upload :
      (user : String) (env : Env W B)
      → let (now, w) = host.now env.world in
        let object = object_name user (s3.format now) in
        Upload object
          (s3.presigned_put_object "profiles" object (15 * minute) w).0
          env
          (upload_as host echo s3 user env).1
  unfolding upload_as
  upload_as-Upload user env =
      let (now, w) = host.now env.world in
      let object = object_name user (s3.format now) in
      let (r, w') = s3.presigned_put_object "profiles" object (15 * minute) w in
      answer_presigned-Upload object r w' env

-- A call of `GetUploadURL` for a user whom the token names gives one response. minio-go is asked for
-- an address of an object whose name holds the id of the user and the time of the call. If it
-- refuses, the answer is a 500. If it gives a URL, the answer is a 200 with this object and with the
-- URL, in which `http://localhost/s3-upload` stands in place of `http://minio:9000/profiles`; where a
-- URL does not contain that, it is given out as it is.
pub get_upload_url-Upload :
    {W B : Type 0} (host : Host W) (echo : Echo W) (s3 : Presigner W) (value : UserValue)
    (user : String) (env : Env W B)
    → named_user value ≡ some user
    → let (now, w) = host.now env.world in
      let object = "avatars/" <> user <> "_" <> s3.format now <> ".jpg" in
      Upload object
        (s3.presigned_put_object "profiles" object (15 * minute) w).0
        env
        (get_upload_url host echo s3 value env).1
unfolding get_upload_url
get_upload_url-Upload host echo s3 value user env named =
    rw (with_sender_named echo (upload_as host echo s3) value user env named)
      (upload_as-Upload host echo s3 user env)
