-- ===== src/Tests/Pages.antt =====
-- Pages of messages and of profiles (src/internal/transport/rest), in memory.
use go_service_bao_fight.Base.{
  suc, String, ◌≡◌, refl, none, some, List, [], ◌∷◌, ◌++◌, str_eq, str_eq_self, if◌then◌else◌,
}
use go_service_bao_fight.Base.Int.{atoi, digits}
use go_service_bao_fight.Base.Json.{Json, str, obj, end, field, decode_struct, key_is, get_key}
use go_service_bao_fight.Effects.{Env, Echo}
use go_service_bao_fight.Models.{Profile}
use go_service_bao_fight.Models.Codec.{decode_map}
use go_service_bao_fight.Rest.Auth.{UserValue, named_user, token_claims, claimed_id}
use go_service_bao_fight.Rest.History.{HistoryDb, HistoryQuery, get_chat_history}
use go_service_bao_fight.Rest.History.Access.{Answered, Tables, get_chat_history-Answered}
use go_service_bao_fight.Rest.Discovery.{
  RedisList, DiscoveryDb, take, discovery_limit, get_discovery,
}
use go_service_bao_fight.Rest.Discovery.Store.{drop, IsQueue, IsProfileTable}
use go_service_bao_fight.Rest.Discovery.Queue.{shown_body, IsServed, get_discovery-IsServed}
use go_service_bao_fight.Outside.{Host}
use go_service_bao_fight.Rest.Profiles.{Profiles, ProfileInput}
use go_service_bao_fight.Tests.World.{codec}

-- The queues, by their keys.
abbrev Queues : Type 0
Queues = String → List String

abbrev queues : Queues
queues k = "a" ∷ "b" ∷ "c" ∷ "d" ∷ []

abbrev before : Env Queues Json
before = record { world = queues; log = [] }

abbrev echo : Echo Queues
echo = record { json = λ status body w. (none, w) }

abbrev set_queue : String → List String → Queues → Queues
set_queue k ids w = λ j. if str_eq j k then ids else w j

abbrev list : RedisList Queues
list = record {
  l_range = λ k n w. (take (suc n) (w k), w);
  r_push = λ k ids w. set_queue k (w k ++ ids) w;
  expire = λ k t w. w;
  l_trim = λ k n w. set_queue k (drop n (w k)) w;
}

abbrev fighter : String → Profile
fighter name = record {
  id = 1;
  user_id = 2;
  nick_name = name;
  user_name = name;
  age = 30;
  gender = "f";
  sport = "judo";
  level = "";
  experience = "";
  weight = "60";
  photo_url = "";
  created_at = 3;
  updated_at = 4;
}

abbrev fighters : List String → List Profile
fighters [] = []
fighters (x ∷ xs) = fighter x ∷ fighters xs

abbrev discovery_db : DiscoveryDb Queues
discovery_db = record {
  candidates = λ u w. ("e" ∷ [], w);
  profiles = λ ids w. (some (fighters ids), w);
}

profiles-IsProfileTable : IsProfileTable list discovery_db (λ w ids. some (fighters ids))
profiles-IsProfileTable = record {
  profiles_lem = λ ids w. refl;
  rows-l_range = λ k n w ids. refl;
  rows-r_push = λ k xs w ids. refl;
  rows-expire = λ k t w ids. refl;
  rows-candidates = λ u w ids. refl;
}

queues-IsQueue : IsQueue echo list discovery_db (λ w. w)
queues-IsQueue = record {
  l_range_lem = λ k n w. refl;
  queue-l_range = λ k n w. refl;
  queue-r_push = λ k ids w. rw (str_eq_self k) refl;
  queue-expire = λ k t w. refl;
  queue-l_trim = λ k n w. rw (str_eq_self k) refl;
  queue-candidates = λ u k w. refl;
  queue-profiles = λ ids k w. refl;
  queue-json = λ status body w k. refl;
}

abbrev token : UserValue
token = some (some (obj (field "Claims" (obj (field "user_id" (str "uu") end)) end)))

token-named : named_user token ≡ some "uu"
unfolding named_user token_claims claimed_id decode_struct key_is decode_map str_eq get_key
token-named = refl

get_discovery-IsServed_example :
    IsServed
      (shown_body codec (λ ids. some (fighters ids)))
      3
      ("a" ∷ "b" ∷ "c" ∷ "d" ∷ [])
      ((get_discovery codec echo list discovery_db token "2" before).1.world "discovery_queue:uu")
      before
      (get_discovery codec echo list discovery_db token "2" before).1
unfolding discovery_limit atoi digits
get_discovery-IsServed_example =
    get_discovery-IsServed codec echo list discovery_db (λ w. w) (λ w ids. some (fighters ids))
      token "uu" "2" before queues-IsQueue profiles-IsProfileTable token-named

abbrev history_db : HistoryDb Queues
history_db = record {
  anchor = λ id w. (some 9, w);
  page = λ chat before n w. (some [], w);
  profiles = λ ids w. ([], w);
  count_before = λ chat t w. (0, w);
  count_members = λ chat user w. (1, w);
}

abbrev query : HistoryQuery
query = record { chat_id = "uuu"; limit = "1000"; before_id = "uuuu" }

abbrev tables : Tables
tables = record {
  pages = λ chat cursor limit. some [];
  anchors = λ id. some 9;
  members = λ chat user. 1;
}

get_chat_history-Answered_example :
    Answered codec tables "uu" query before
      (get_chat_history codec echo history_db token query before).1
get_chat_history-Answered_example =
    get_chat_history-Answered codec echo history_db tables token "uu" query before
      (record {
        page_lem = λ chat cursor limit w. refl;
        anchor_lem = λ id w. refl;
        members_lem = λ chat user w. refl;
      })
      token-named

abbrev profiles : Profiles Queues
profiles = record {
  find = λ u w. (none, w);
  upsert = λ p w. ((none, p), w);
  search = λ q w. (some [], w);
}

abbrev host : Host Queues
host = record { new_uuid = λ w. (1, w); now = λ w. (2, w) }

abbrev form : ProfileInput
form = record {
  nick = "ann";
  name = "Ann";
  age = 30;
  gender = "f";
  sport = "judo";
  level = "";
  experience = "";
  weight = "60";
}
