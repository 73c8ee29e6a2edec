-- ===== src/Rest/History/Access.antt =====
-- Who gets which messages from `GetChatHistory` (src/internal/transport/rest/chat_handler.go).
use go_service_bao_fight.Base.{
  ℕ, String, ◌≡◌, ◌≢◌, ◌≤◌, ◌⊎◌, refl, sym, ◌∙◌, true, Bool, Option, none, some, List, [], ◌∷◌,
  ◌==◌, str_eq, arith, Bool-cases, Option-cases, inl, inr,
}
use go_service_bao_fight.Base.Int.{ℤ, pos, negsuc, atoi}
use go_service_bao_fight.Base.Json.{Json}
use go_service_bao_fight.Effects.{Effect, replied, Env, call, Echo, error_body}
use go_service_bao_fight.Models.{Time, Message}
use go_service_bao_fight.Models.Codec.{Codec}
use go_service_bao_fight.Rest.Auth.{UserValue, named_user}
use go_service_bao_fight.Rest.Auth.Outcomes.{with_sender_named}
use go_service_bao_fight.Rest.History.{
  HistoryDb, HistoryQuery, page_limit, history_body, has_more, answer_page, read_page, history_as,
  get_chat_history, sender_ids,
}

-- What the tables hold while the request runs: the pages of a chat, the times of the messages, and
-- how often a user is in a chat. The queries answer by it and do not change it.
pub record Tables : Type 0 where
  pub pages : String → Option Time → ℕ → Option (List Message)
  pub anchors : String → Option Time
  pub members : String → String → ℕ

pub record Answers {W : Type 0} (db : HistoryDb W) (tables : Tables) : Type 0 where
  pub page_lem :
      (chat : String) (before : Option Time) (limit : ℕ) (w : W)
      → (db.page chat before limit w).0 ≡ tables.pages chat before limit
  pub anchor_lem : (id : String) (w : W) → (db.anchor id w).0 ≡ tables.anchors id
  pub members_lem :
      (chat user : String) (w : W) → (db.count_members chat user w).0 ≡ tables.members chat user

-- The page begins at the newest message, or before the message that the request names.
abbrev pub StartsAt : Tables → String → Option Time → Type 0
StartsAt tables before_id cursor =
    ((str_eq before_id "" ≡ true) × (cursor ≡ none))
    ⊎ ((t : Time) × (tables.anchors before_id ≡ some t) × (cursor ≡ some t))

-- The page is one of the chat that was asked for, of at most 100 messages, from where the request
-- says, and the user is a member of the chat.
pub record IsReadable (tables : Tables) (user : String) (query : HistoryQuery) (limit : ℕ)
    (messages : List Message) : Type 0 where
  pub cursor : Option Time
  pub starts : StartsAt tables query.before_id cursor
  pub read : tables.pages query.chat_id cursor limit ≡ some messages
  pub member : tables.members query.chat_id user ≢ 0
  pub some_limit : 1 ≤ limit
  pub few : limit ≤ 100

-- The answer: one response, a refusal or a page.
pub data HistoryAnswer {B : Type 0} (c : Codec B) (tables : Tables) (user : String)
    (query : HistoryQuery) : Effect B → Type 0 where
  refused :
      (status : ℕ) (body : Json)
      → status ≢ 200
      → HistoryAnswer c tables user query (replied status body)
  shown :
      (limit : ℕ) (messages : List Message) (more : Bool)
      → IsReadable tables user query limit messages
      → HistoryAnswer c tables user query (replied 200 (history_body c limit messages more))

abbrev pub Answered :
    {W B : Type 0} → Codec B → Tables → String → HistoryQuery → Env W B → Env W B → Type 0
Answered {W} {B} c tables user query env env' =
    (added : Effect B) × (env'.log ≡ added ∷ env.log) × HistoryAnswer c tables user query added

page_limit_bounds : (z : ℤ) → (1 ≤ page_limit z) × (page_limit z ≤ 100)
unfolding page_limit
page_limit_bounds (negsuc n) = omega arith
page_limit_bounds (pos n) = ground arith

module _ {W B : Type 0} (c : Codec B) (echo : Echo W) (db : HistoryDb W) (tables : Tables)
    (l : Answers db tables) (query : HistoryQuery) where
  log-has_more :
      (chat : String) (messages : List Message) (env : Env W B)
      → (has_more c echo db chat messages env).1.log ≡ env.log
  log-has_more chat [] env = refl
  log-has_more chat (m ∷ ms) env = refl

  answer_page-Answered :
      (user : String) (limit : ℕ) (messages : List Message) (cursor : Option Time) (env : Env W B)
      → StartsAt tables query.before_id cursor
      → tables.pages query.chat_id cursor limit ≡ some messages
      → (1 ≤ limit) × (limit ≤ 100)
      → Answered c tables user query env
          (answer_page c echo db user query.chat_id limit messages env).1
  unfolding answer_page
  answer_page-Answered user limit messages cursor env starts read bounds =
      let chat = query.chat_id in
      let env₁ = (call (db.profiles (sender_ids c messages)) env).1 in
      let env₂ = (has_more c echo db chat messages env₁).1 in
      elim (Bool-cases ((db.count_members chat user env₂.world).0 == 0)) [
        | inl q ↦ (
          replied 403 (error_body "access denied to this chat"),
          ground (arith, log-has_more chat messages env₁),
          refused 403 _ (omega arith),
        )
        | inr q ↦ (
          replied 200 (history_body c limit messages (has_more c echo db chat messages env₁).0),
          ground (arith, log-has_more chat messages env₁),
          shown limit messages _ (record {
            cursor = cursor;
            starts = starts;
            read = read;
            member = λ e. ground (arith, l.members_lem chat user env₂.world);
            some_limit = bounds.0;
            few = bounds.1;
          }),
        )
      ]

  read_page-Answered :
      (user : String) (limit : ℕ) (cursor : Option Time) (env : Env W B)
      → StartsAt tables query.before_id cursor
      → (1 ≤ limit) × (limit ≤ 100)
      → Answered c tables user query env (read_page c echo db user query.chat_id limit cursor env).1
  unfolding read_page
  read_page-Answered user limit cursor env starts bounds =
      let chat = query.chat_id in
      let env₁ = (call (db.page chat cursor limit) env).1 in
      elim (Option-cases (db.page chat cursor limit env.world).0) [
        | inl q ↦ (replied 500 (error_body "db error"), ground arith, refused 500 _ (omega arith))
        | inr (messages, q) ↦
            let (added, e, a) =
              answer_page-Answered user limit messages cursor env₁ starts
                (sym (l.page_lem chat cursor limit env.world) ∙ q) bounds in
            (added, ground (arith, e), a)
      ]

  history_as-Answered :
      (user : String) (env : Env W B)
      → Answered c tables user query env (history_as c echo db query user env).1
  unfolding history_as
  history_as-Answered user env =
      let limit = page_limit (atoi query.limit) in
      let bounds = page_limit_bounds (atoi query.limit) in
      elim (Bool-cases (str_eq query.chat_id "")) [
        | inl q ↦
            (replied 400 (error_body "chat_id is required"), rw q refl, refused 400 _ (omega arith))
        | inr q ↦ elim (Bool-cases (str_eq query.before_id "")) [
          | inl r ↦ rw q (rw r (read_page-Answered user limit none env (inl (r, refl)) bounds))
          | inr r ↦ elim (Option-cases (db.anchor query.before_id env.world).0) [
            | inl t ↦ (
              replied 400 (error_body "invalid cursor"),
              ground arith,
              refused 400 _ (omega arith),
            )
            | inr (time, t) ↦
                let env₁ = (call (db.anchor query.before_id) env).1 in
                let found = sym (l.anchor_lem query.before_id env.world) ∙ t in
                let (added, e, a) =
                  read_page-Answered user limit (some time) env₁ (inr (time, found, refl)) bounds in
                (added, ground (arith, e), a)
          ]
        ]
      ]

-- A call of `GetChatHistory` for a user whom the token names gives one response, while the tables
-- stay as they are: a refusal with a status other than 200, or a 200 with a page of the chat that
-- was asked for, from its newest message or before the message that the request names, with a limit
-- from 1 to 100 whatever the text of the request's limit. A page is shown only to a member of that
-- chat.
pub get_chat_history-Answered :
    {W B : Type 0} (c : Codec B) (echo : Echo W) (db : HistoryDb W) (tables : Tables)
    (value : UserValue) (user : String) (query : HistoryQuery) (env : Env W B)
    → Answers db tables
    → named_user value ≡ some user
    → Answered c tables user query env (get_chat_history c echo db value query env).1
unfolding get_chat_history
get_chat_history-Answered c echo db tables value user query env l named =
    rw (with_sender_named echo (history_as c echo db query) value user env named)
      (history_as-Answered c echo db tables l query user env)
