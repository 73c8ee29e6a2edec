-- ===== src/Rest/History.antt =====
-- `GetChatHistory` (src/internal/transport/rest/chat_handler.go).
pub mod Access
use go_service_bao_fight.Base.{
  ℕ, String, Bool, false, Option, none, some, List, [], ◌∷◌, ◌||◌, ltb, ◌==◌, str_eq, min, max,
  if◌then◌else◌,
}
use go_service_bao_fight.Base.Int.{ℤ, pos, negsuc, atoi}
use go_service_bao_fight.Base.Json.{Json, boolean, num, str, arr, obj, Items, nil, cons, end, field}
use go_service_bao_fight.Effects.{GoError, M, pure, ◌>>=◌, ◌>>◌, call, Echo, reply, error_body}
use go_service_bao_fight.Models.{Uuid, Time, Message, Profile}
use go_service_bao_fight.Models.Codec.{Codec, message_json}
use go_service_bao_fight.Rest.Auth.{UserValue, with_sender}

-- The queries. `anchor` is the time of the message with this id, and `page` the newest messages of
-- a chat, before a time if one is given; both are none on an error. `count_before` counts the
-- messages before a time, up to one, and `count_members` the rows of a chat and a user; both are 0
-- on an error, which the code drops.
pub record HistoryDb (W : Type 0) : Type 0 where
  pub anchor : String → W → Option Time × W
  pub page : String → Option Time → ℕ → W → Option (List Message) × W
  pub profiles : List String → W → List Profile × W
  pub count_before : String → Time → W → ℕ × W
  pub count_members : String → String → W → ℕ × W

-- The parameters of the request; one that is missing is "".
pub record HistoryQuery : Type 0 where
  pub chat_id : String
  pub limit : String
  pub before_id : String

-- `if limit <= 0 || limit > 100 { limit = min(100, max(50, limit)) }`
unfoldable pub page_limit : ℤ → ℕ
page_limit (negsuc n) = min 100 50
page_limit (pos n) = if n == 0 || ltb 100 n then min 100 (max 50 n) else n

-- The keys of the map `userIDs`. Go gives them in any order, which only the query sees.
abbrev has_id : String → List String → Bool
has_id u [] = false
has_id u (v ∷ vs) = str_eq u v || has_id u vs

abbrev add_id : String → List String → List String
add_id u ids = if has_id u ids then ids else u ∷ ids

abbrev last_message : Message → List Message → Message
last_message m [] = m
last_message m (n ∷ ns) = last_message n ns

module _ {B : Type 0} (c : Codec B) where
  abbrev sender_ids : List Message → List String
  sender_ids [] = []
  sender_ids (m ∷ ms) = add_id (c.uuid_text m.sender_id) (sender_ids ms)

  -- The id of the last message of the page, or "".
  abbrev pub next_cursor : List Message → String
  next_cursor [] = ""
  next_cursor (m ∷ ms) = c.uuid_text (last_message m ms).id

  abbrev message_items : List Message → Items
  message_items [] = nil
  message_items (m ∷ ms) = cons (message_json c m) (message_items ms)

  abbrev pub history_body : ℕ → List Message → Bool → Json
  history_body limit messages more = obj (
      field "messages" (arr (message_items messages)) (
        field "meta"
          (obj (
            field "has_more" (boolean more)
              (field "limit" (num limit) (field "next_cursor" (str (next_cursor messages)) end))))
          end))

module _ {W B : Type 0} (c : Codec B) (echo : Echo W) (db : HistoryDb W) where
  -- `hasMore`
  abbrev has_more : String → List Message → M W B Bool
  has_more chat [] = pure false
  has_more chat (m ∷ ms) = do
    count ← call (db.count_before chat (last_message m ms).created_at)
    pure (ltb 0 count)

  -- The page was read: the profiles, which the answer does not use, whether there is more, and only
  -- then the check that the user is in the chat.
  unfoldable pub answer_page : String → String → ℕ → List Message → M W B (Option GoError)
  answer_page user chat limit messages = do
    _ ← call (db.profiles (sender_ids c messages))
    more ← has_more chat messages
    count ← call (db.count_members chat user)
    if count == 0
        then reply echo 403 (error_body "access denied to this chat")
        else reply echo 200 (history_body c limit messages more)

  unfoldable pub read_page : String → String → ℕ → Option Time → M W B (Option GoError)
  read_page user chat limit before = do
    page ← call (db.page chat before limit)
    elim page [
      | none ↦ reply echo 500 (error_body "db error")
      | some messages ↦ answer_page user chat limit messages
    ]

  unfoldable pub history_as : HistoryQuery → String → M W B (Option GoError)
  history_as query user =
      if str_eq query.chat_id ""
      then reply echo 400 (error_body "chat_id is required")
      else if str_eq query.before_id ""
      then read_page user query.chat_id (page_limit (atoi query.limit)) none
      else (do
        time ← call (db.anchor query.before_id)
        elim time [
          | none ↦ reply echo 400 (error_body "invalid cursor")
          | some t ↦ read_page user query.chat_id (page_limit (atoi query.limit)) (some t)
        ])

  unfoldable pub get_chat_history : UserValue → HistoryQuery → M W B (Option GoError)
  get_chat_history user query = with_sender echo user (history_as query)
