-- ===== src/Tests/Feeds.antt =====
-- The lists of chats and of fans, and the address for a photo (src/internal/transport/rest), with a
-- Redis that has nothing.
use go_service_bao_fight.Base.{
  String, List, map, ◌++◌, str_eq_self, if◌then◌else◌, ℕ, ◌≡◌, ◌≤◌, refl, str_eq, false, ◌<>◌, none,
  some, [], ◌∷◌, length, inr, arith,
}
use go_service_bao_fight.Base.Int.{atoi}
use go_service_bao_fight.Base.Json.{Json, str, obj, end, field, decode_struct, key_is, get_key}
use go_service_bao_fight.Effects.{Env, Echo, replied}
use go_service_bao_fight.Models.{Uuid, Reaction}
use go_service_bao_fight.Models.Codec.{decode_map}
use go_service_bao_fight.Outside.{Host}
use go_service_bao_fight.Rest.Auth.{UserValue, named_user, token_claims, claimed_id}
use go_service_bao_fight.Rest.Inbox.{SortedSet, InboxDb, zero_profile, get_chats}
use go_service_bao_fight.Rest.Inbox.Cached.{IsAdded, with_score}
use go_service_bao_fight.Rest.Fans.Cached.{IsScored}
use go_service_bao_fight.Rest.Inbox.Paging.{InboxTables, inbox, get_chats_lem}
use go_service_bao_fight.Rest.Fans.{FanSet, FansDb, scored, fans_limit, get_liking_profiles}
use go_service_bao_fight.Rest.Fans.Shown.{
  fan_ids, FansAnswer, rows_of, get_liking_profiles-FansAnswer,
}
use go_service_bao_fight.Base.Texts.{has_prefix, replace_first}
use go_service_bao_fight.Rest.Upload.{outer_address, Presigner, inner_address, get_upload_url}
use go_service_bao_fight.Rest.Upload.Address.{Upload, get_upload_url-Upload}
use go_service_bao_fight.Tests.World.{codec}

-- The world is what was put into the sorted sets.
abbrev Scores : Type 0
Scores = String → List (ℕ × String)

abbrev scores : Scores
scores key = []

abbrev add_scores : String → List (ℕ × String) → Scores → Scores
add_scores k xs w = λ j. if str_eq j k then xs ++ w j else w j

abbrev before : Env Scores Json
before = record { world = scores; log = [] }

abbrev echo : Echo Scores
echo = record { json = λ status body w. (none, w) }

abbrev host : Host Scores
host = record { new_uuid = λ w. (1, w); now = λ w. (62135596805000000000, w) }

abbrev token : UserValue
token = some (some (obj (field "Claims" (obj (field "user_id" (str "uu") end)) end)))

token-named : named_user token ≡ some "uu"
unfolding named_user token_claims claimed_id decode_struct key_is decode_map str_eq get_key
token-named = refl

abbrev set : SortedSet Scores
set = record {
  z_rev_range_by_score = λ key max n w. ([], w);
  z_add_all = λ key score ids w. add_scores key (with_score score ids) w;
  expire = λ key t w. w;
}

-- A dialog with the user 7, who has no profile.
abbrev tables : InboxTables
tables = record {
  chat_ids = λ user. "uuuu" ∷ [];
  chats = λ ids. record { id = 3; title = "dialog"; is_group = false; created_at = 9 } ∷ [];
  members = λ ids user. record { chat_id = 3; user_id = 7; joined_at = 9 } ∷ [];
  profiles = λ users. [];
}

abbrev inbox_db : InboxDb Scores
inbox_db = record {
  pluck = λ user w. (tables.chat_ids user, w);
  chats = λ ids w. (tables.chats ids, w);
  partners = λ ids user w. (tables.members ids user, w);
  profiles = λ users w. (tables.profiles users, w);
}

set-IsAdded : IsAdded host echo set inbox_db (λ w. w)
set-IsAdded = record {
  added-z_add = λ k score ids w. rw (str_eq_self k) refl;
  added-page = λ k max n w. refl;
  added-expire = λ k t w. refl;
  added-now = λ k w. refl;
  added-pluck = λ u k w. refl;
  added-chats = λ ids k w. refl;
  added-partners = λ ids u k w. refl;
  added-profiles = λ us k w. refl;
  added-json = λ status body k w. refl;
}

get_chats_lem_example :
    ((get_chats host codec echo set inbox_db token "1" "17" before).1.log
      ≡ replied 200 (inbox codec tables "uu" ("uuuu" ∷ [])) ∷ [])
    × (score : ℕ) × ((get_chats host codec echo set inbox_db token "1" "17" before).1.world
          "user_chats:uu"
        ≡ with_score score ("uuuu" ∷ []) ++ [])
get_chats_lem_example =
    get_chats_lem host codec echo set inbox_db tables (λ w. w) token "uu" "1" "17" before
      (record {
        pluck_lem = λ user w. refl;
        chats_lem = λ ids w. refl;
        partners_lem = λ ids user w. refl;
        profiles_lem = λ users w. refl;
      })
      set-IsAdded token-named

abbrev fan_set : FanSet Scores
fan_set = record {
  z_rev_range_by_score = λ key max n w. (none, w);
  z_add_scored = λ key xs w. add_scores key xs w;
  expire = λ key t w. w;
  z_score = λ key id w. (0, w);
}

abbrev like : Uuid → Reaction
like user = record { id = 1; from_user_id = user; to_user_id = 1; action = "like"; created_at = 4 }

abbrev fans_db : FansDb Scores
fans_db = record {
  likes = λ user w. (like 2 ∷ like 3 ∷ [], w);
  profiles = λ ids w. (some (zero_profile ∷ []), w);
}

fan_set-IsScored : IsScored echo fan_set fans_db (λ w. w)
fan_set-IsScored = record {
  added-z_add = λ k xs w. rw (str_eq_self k) refl;
  added-page = λ k max n w. refl;
  added-expire = λ k t w. refl;
  added-z_score = λ k id w. refl;
  added-likes = λ u k w. refl;
  added-profiles = λ ids k w. refl;
  added-json = λ status body k w. refl;
}

abbrev likes : List Reaction
likes = like 2 ∷ like 3 ∷ []

get_liking_profiles-FansAnswer_example :
    FansAnswer codec [] (get_liking_profiles codec echo fan_set fans_db token "1" "" before).1.log (
      rows_of
        (λ ids. some (zero_profile ∷ []))
        (fan_ids (fans_limit (atoi "1")) none ("uuu" ∷ "uuuu" ∷ [])))
    × (length (fan_ids (fans_limit (atoi "1")) none ("uuu" ∷ "uuuu" ∷ [])) ≤ fans_limit (atoi "1"))
    × (1 ≤ fans_limit (atoi "1"))
    × (fans_limit (atoi "1") ≤ 50)
    × ((get_liking_profiles codec echo fan_set fans_db token "1" "" before).1.world "fans:uu"
        ≡ map (scored codec) likes ++ [])
get_liking_profiles-FansAnswer_example =
    get_liking_profiles-FansAnswer codec echo fan_set fans_db (λ user. likes)
      (λ ids. some (zero_profile ∷ [])) (λ w. w) token "uu" "1" "" before
      (record {
        page_few = λ key max n w ids h. ground (arith, h);
        likes_lem = λ user w. refl;
        profiles_lem = λ ids w. refl;
      })
      fan_set-IsScored token-named

abbrev s3 : Presigner Scores
s3 = record {
  presigned_put_object =
      λ bucket object expiry w. (inr (inner_address <> ("/" <> object <> "?sig")), w);
  format = λ t. "20260101000000";
}

get_upload_url-Upload_example :
    Upload "avatars/uu_20260101000000.jpg"
      (inr (inner_address <> ("/" <> "avatars/uu_20260101000000.jpg" <> "?sig")))
      before
      (get_upload_url host echo s3 token before).1
get_upload_url-Upload_example = get_upload_url-Upload host echo s3 token "uu" before token-named

-- Where minio has another name, as in deploy/helm/bao-fight/values.yaml, its address is given out.
other_host :
    replace_first "http://minio-service:9000/profiles/a" inner_address outer_address
    ≡ "http://minio-service:9000/profiles/a"
unfolding replace_first has_prefix
other_host = refl
