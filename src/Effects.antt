-- ===== src/Effects.antt =====
-- What a handler passes along: the world outside the process, which only the calls of the
-- libraries change (gorm, go-redis, kafka-go, echo), and the list of the calls that a theorem
-- speaks of, the newest first. The list is history: no definition of the program reads it.
use go_service_bao_fight.Base.{ℕ, String, Option, List, [], ◌∷◌, ◌++◌}
use go_service_bao_fight.Base.Json.{Json, obj, str, end, field}
use go_service_bao_fight.Models.{User, Session, Message, Chat, ChatMember, ProfileAvatar, Profile}
use go_service_bao_fight.Models.Topics.{Topic}

-- A Go `error` that is not nil, by its text.
abbrev pub GoError : Type 0
GoError = String

-- A kafka.Message, as far as the program fills it in.
pub record KafkaMessage (B : Type 0) : Type 0 where
  pub topic : Topic
  pub key : String
  pub value : B

pub data Row : Type 0 where
  user_row : User → Row
  session_row : Session → Row
  message_row : Message → Row
  chat_row : Chat → Row
  member_row : ChatMember → Row
  avatar_row : ProfileAvatar → Row
  profile_row : Profile → Row

-- `replied` is a response written by c.JSON or c.NoContent, `inserted` a gorm `Create` with its
-- error, `published` a call of `WriteMessages`.
pub data Effect (B : Type 0) : Type 0 where
  replied : ℕ → Json → Effect B
  inserted : Row → Option GoError → Effect B
  published : KafkaMessage B → Option GoError → Effect B

pub record Env (W B : Type 0) : Type 0 where
  pub world : W
  pub log : List (Effect B)

abbrev pub M : Type 0 → Type 0 → Type 0 → Type 0
M W B A = Env W B → A × Env W B

module _ {W B : Type 0} where
  infixl 5 ◌>>=◌ ◌>>◌
  abbrev pub pure : {A : Type 0} → A → M W B A
  pure a env = (a, env)

  abbrev pub ◌>>=◌ : {A C : Type 0} → M W B A → (A → M W B C) → M W B C
  ◌>>=◌ m f env = let (a, env') = m env in f a env'

  abbrev pub ◌>>◌ : {A C : Type 0} → M W B A → M W B C → M W B C
  m >> k = m >>= λ _. k

  -- A call of a library.
  abbrev pub call : {A : Type 0} → (W → A × W) → M W B A
  call f env = let (a, w) = f env.world in (a, record env { world = w })

  abbrev pub note : Effect B → M W B (Unit {0})
  note e env = (tt, record env { log = e ∷ env.log })

-- echo's response writer: `c.JSON(status, body)` returns nil when the body is written.
pub record Echo (W : Type 0) : Type 0 where
  pub json : ℕ → Json → W → Option GoError × W

-- `(*kafka.Writer).WriteMessages` with one message.
pub record Kafka (W B : Type 0) : Type 0 where
  pub write : KafkaMessage B → W → Option GoError × W

-- gorm's `Create` of one row. It may fill in columns that the database generates, so the row
-- comes back beside the error.
abbrev pub Create : Type 0 → Type 0 → Type 0
Create W R = R → W → (Option GoError × R) × W

module _ {W B : Type 0} where
  abbrev pub reply : Echo W → ℕ → Json → M W B (Option GoError)
  reply e status body = do err ← call (e.json status body); note (replied status body); pure err

  abbrev pub publish : Kafka W B → KafkaMessage B → M W B (Option GoError)
  publish k m = do err ← call (k.write m); note (published m err); pure err

  abbrev pub insert : {R : Type 0} → Create W R → (R → Row) → R → M W B (Option GoError × R)
  insert create row r = do (err, r') ← call (create r); note (inserted (row r') err); pure (err, r')

-- `map[string]string{"error": text}`
abbrev pub error_body : String → Json
error_body text = obj (field "error" (str text) end)

-- The messages that were handed to Kafka, the oldest first.
abbrev pub sent_messages : {B : Type 0} → List (Effect B) → List (KafkaMessage B)
sent_messages [] = []
sent_messages (published m err ∷ es) = sent_messages es ++ m ∷ []
sent_messages (replied status body ∷ es) = sent_messages es
sent_messages (inserted row err ∷ es) = sent_messages es
