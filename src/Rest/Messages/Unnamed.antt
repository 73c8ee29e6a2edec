-- ===== src/Rest/Messages/Unnamed.antt =====
-- `SendMessage` by nobody (src/internal/transport/rest/message_handler.go).
use go_service_bao_fight.Base.{
  ℕ, ◌≡◌, ◌≢◌, ◌⊎◌, inl, inr, refl, ap, ◌∙◌, Option, none, some, ◌∷◌, ◌||◌, arith, str_eq,
  Bool-cases,
}
use go_service_bao_fight.Base.Json.{Json}
use go_service_bao_fight.Effects.{replied, Env, Create, Echo, Kafka, error_body}
use go_service_bao_fight.Models.{Message}
use go_service_bao_fight.Models.Codec.{Codec}
use go_service_bao_fight.Outside.{Host, Chats}
use go_service_bao_fight.Rest.Auth.{UserValue, named_user, Writes}
use go_service_bao_fight.Rest.Auth.Outcomes.{with_sender_unnamed}
use go_service_bao_fight.Rest.Messages.{SendInput, send_checked, send_body, send_message}

-- Two refusals, and nothing else.
pub record IsAnsweredTwice {W B : Type 0} (before after : Env W B) : Type 0 where
  pub first : ℕ
  pub first_body : Json
  pub second : ℕ
  pub second_body : Json
  pub logged : after.log ≡ replied second second_body ∷ replied first first_body ∷ before.log
  pub first_refused : first ≢ 200
  pub second_refused : second ≢ 200

-- The empty id is refused before anything is stored.
send_body_nobody :
    {W B : Type 0} (host : Host W) (c : Codec B) (echo : Echo W) (kafka : Kafka W B)
    (chats : Chats W) (create : Create W Message) (body : Option SendInput) (env : Env W B)
    → c.parse_uuid "" ≡ none
    → (status : ℕ) × (answer : Json) × (status ≢ 200)
      × ((send_body host c echo kafka chats create body "" env).1.log
          ≡ replied status answer ∷ env.log)
unfolding send_body send_checked
send_body_nobody host c echo kafka chats create none env p =
    (400, error_body "invalid request", omega arith, refl)
send_body_nobody host c echo kafka chats create (some input) env p =
    elim (Bool-cases (str_eq input.chat_id "" || str_eq input.text "")) [
      | inl q ↦ (400, error_body "chat_id and text are required", omega arith, rw q refl)
      | inr q ↦ (401, error_body "invalid sender id", omega arith, ground arith)
    ]

refusal_ne : (status : ℕ) → (status ≡ 401) ⊎ (status ≡ 500) → status ≢ 200
refusal_ne status h = ground arith

-- A request that names no user stores and publishes nothing, but is answered twice: echo having
-- written the refusal, the handler goes on with the empty id and refuses again.
pub send_message_unnamed :
    {W B : Type 0} (host : Host W) (c : Codec B) (echo : Echo W) (kafka : Kafka W B)
    (chats : Chats W) (create : Create W Message) (value : UserValue) (body : Option SendInput)
    (env : Env W B)
    → Writes echo
    → c.parse_uuid "" ≡ none
    → named_user value ≡ none
    → IsAnsweredTwice env (send_message host c echo kafka chats create value body env).1
unfolding send_message
send_message_unnamed host c echo kafka chats create value body env w p h =
    let (env', e, r) =
      with_sender_unnamed echo (send_body host c echo kafka chats create body) value env w h in
    let (status, answer, ne, logged) =
      send_body_nobody host c echo kafka chats create body env' p in
    record {
      first = r.status;
      first_body = r.body;
      second = status;
      second_body = answer;
      logged = rw e (logged ∙ ap (λ l. replied status answer ∷ l) r.logged);
      first_refused = refusal_ne r.status r.refusal;
      second_refused = ne;
    }
