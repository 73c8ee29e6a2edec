-- ===== src/Tests/Shelf.antt =====
-- Photos (src/internal/transport/rest/profile_photo_handler.go), in memory.
use go_service_bao_fight.Base.{String, none, some, List, [], ◌∷◌, ◌==◌, if◌then◌else◌}
use go_service_bao_fight.Base.Json.{Json, str, obj, end, field}
use go_service_bao_fight.Effects.{Env, Echo}
use go_service_bao_fight.Models.{Uuid}
use go_service_bao_fight.Outside.{Host}
use go_service_bao_fight.Rest.Auth.{UserValue}
use go_service_bao_fight.Rest.Photos.{Avatars}

-- The current photos, and those at the start of the transaction.
pub record Shelf : Type 0 where
  pub current : Uuid → List String
  pub saved : Uuid → List String

abbrev shelf : Shelf
shelf = record { current = λ u. "old" ∷ []; saved = λ u. [] }

abbrev before : Env Shelf Json
before = record { world = shelf; log = [] }

abbrev set_current : Uuid → List String → Shelf → Shelf
set_current u urls w = record w { current = λ v. if v == u then urls else w.current v }

abbrev avatars : Avatars Shelf
avatars = record {
  transactions = record {
    begin = λ w. record w { saved = w.current };
    commit = λ w. (none, w);
    rollback = λ w. record w { current = w.saved };
  };
  clear_current = λ u w. set_current u [] w;
  create = λ a w. (
    (none, a),
    set_current a.user_id
        (if a.is_current then a.url ∷ w.current a.user_id else w.current a.user_id) w,
  );
  set_photo = λ u url w. (some "no profile", w);
}

abbrev host : Host Shelf
host = record { new_uuid = λ w. (1, w); now = λ w. (2, w) }

abbrev echo : Echo Shelf
echo = record { json = λ status body w. (none, w) }

abbrev token : UserValue
token = some (some (obj (field "Claims" (obj (field "user_id" (str "uu") end)) end)))
