-- ===== src/Models.antt =====
-- The rows of the database (src/internal/models), with the hooks that gorm calls before an insert,
-- and the names of the Kafka topics (src/internal/infrastructure/kafka_topics).
pub mod Codec
pub mod RoundTrip
pub mod Topics
use go_service_bao_fight.Base.{ℕ, ◌-◌, ◌/◌, ◌*◌, String, Bool, ◌==◌, if◌then◌else◌, zero}
use go_service_bao_fight.Base.Json.{Fields}

-- A uuid.UUID is 16 bytes: the number that they spell. uuid.Nil is 0.
abbrev pub Uuid : Type 0
Uuid = ℕ

abbrev pub nil_uuid : Uuid
nil_uuid = 0

-- An instant, in nanoseconds since Go's zero time (1 January of the year 1).
abbrev pub Time : Type 0
Time = ℕ

abbrev pub zero_time : Time
zero_time = 0

abbrev pub second : ℕ
second = 1000000000

abbrev pub minute : ℕ
minute = 60 * second

abbrev pub hour : ℕ
hour = 60 * minute

-- `Time.Unix` of an instant after 1970.
unfoldable pub unix : Time → ℕ
unix t = t / second - 62135596800

pub record User : Type 0 where
  pub id : Uuid
  pub email : String
  pub password_hash : String
  pub created_at : Time
  pub updated_at : Time

pub record Session : Type 0 where
  pub id : Uuid
  pub user_id : Uuid
  pub refresh_token : String
  pub user_agent : String
  pub client_ip : String
  pub expires_at : Time
  pub created_at : Time

pub record Message : Type 0 where
  pub id : Uuid
  pub chat_id : Uuid
  pub sender_id : Uuid
  pub text : String
  pub payload : Fields
  pub sequence_number : ℕ  -- uint64
  pub created_at : Time

pub record Reaction : Type 0 where
  pub id : Uuid
  pub from_user_id : Uuid
  pub to_user_id : Uuid
  pub action : String
  pub created_at : Time

abbrev pub action_like : String
action_like = "like"

abbrev pub action_dislike : String
action_dislike = "dislike"

abbrev pub action_super : String
action_super = "superlike"

abbrev pub match : String
match = "match"

pub record Chat : Type 0 where
  pub id : Uuid
  pub title : String
  pub is_group : Bool
  pub created_at : Time

pub record ChatMember : Type 0 where
  pub chat_id : Uuid
  pub user_id : Uuid
  pub joined_at : Time

pub record Profile : Type 0 where
  pub id : Uuid
  pub user_id : Uuid
  pub nick_name : String
  pub user_name : String
  pub age : ℕ  -- uint32
  pub gender : String
  pub sport : String
  pub level : String
  pub experience : String
  pub weight : String
  pub photo_url : String
  pub created_at : Time
  pub updated_at : Time

pub record ProfileAvatar : Type 0 where
  pub id : Uuid
  pub user_id : Uuid
  pub url : String
  pub is_current : Bool
  pub created_at : Time

-- gorm calls the hook before it inserts a row; `fresh` is what uuid.New() returns if it is called.
unfoldable pub user_before_create : Uuid → User → User
user_before_create fresh u = if u.id == nil_uuid then record u { id = fresh } else u

unfoldable pub profile_before_create : Uuid → Profile → Profile
profile_before_create fresh p = if p.id == nil_uuid then record p { id = fresh } else p
