-- ===== src/Rest/Messages/Trace.antt =====
-- What one call of `SendMessage` does to the outside (src/internal/transport/rest/message_handler.go).
use go_service_bao_fight.Base.{
  ℕ, String, ◌≡◌, ◌≢◌, inl, inr, refl, ap, Option, none, some, List, [], ◌∷◌, ◌++◌, ◌||◌, ◌<>◌,
  false, arith, ◌==◌, str_eq, Bool-cases, Option-cases,
}
use go_service_bao_fight.Base.Json.{Json, num, str, obj, end, field}
use go_service_bao_fight.Effects.{
  GoError, KafkaMessage, message_row, Effect, replied, inserted, published, Env, call, Create, Echo,
  Kafka, insert, error_body,
}
use go_service_bao_fight.Models.{Uuid, Message}
use go_service_bao_fight.Models.Codec.{Codec, encode_message}
use go_service_bao_fight.Models.Topics.{chat_messages}
use go_service_bao_fight.Outside.{Host, Chats}
use go_service_bao_fight.Rest.Auth.{UserValue, named_user}
use go_service_bao_fight.Rest.Auth.Outcomes.{with_sender_named}
use go_service_bao_fight.Rest.Messages.{SendInput, send_as, send_checked, send_body, send_message}

-- The message that is published for `m`.
abbrev pub announcement : {B : Type 0} → Codec B → String → Message → KafkaMessage B
announcement c key m = record { topic = chat_messages; key = key; value = encode_message c m }

-- The calls that one run makes, the newest first: a refusal; a message that the database refused;
-- a message that it took and Kafka refused; or one that both took. `P` holds of the message.
pub data SendTrace {B : Type 0} (c : Codec B) (P : Message → Type 0)
    : List (Effect B) → Type 0 where
  refused : (status : ℕ) (body : Json) → status ≢ 200 → SendTrace c P (replied status body ∷ [])
  unsaved :
      (body : Json) (m : Message) (e : GoError)
      → P m
      → SendTrace c P (replied 500 body ∷ inserted (message_row m) (some e) ∷ [])
  unsent :
      (body : Json) (key : String) (m : Message) (e : GoError)
      → P m
      → SendTrace c P (
          replied 500 body
          ∷ published (announcement c key m) (some e)
          ∷ inserted (message_row m) none
          ∷ [])
  sent :
      (body : Json) (key : String) (m : Message)
      → P m
      → SendTrace c P (
          replied 200 body
          ∷ published (announcement c key m) none
          ∷ inserted (message_row m) none
          ∷ [])

-- The run from `env` adds a trace to the history.
abbrev pub Traced : {W B : Type 0} → Codec B → (Message → Type 0) → Env W B → Env W B → Type 0
Traced {W} {B} c P env env' =
    (added : List (Effect B)) × (env'.log ≡ added ++ env.log) × SendTrace c P added

-- The message is from the user of the token, who was found in the chat of the message.
pub record IsAuthorised {W B : Type 0} (c : Codec B) (chats : Chats W) (w : W) (user : String)
    (m : Message) : Type 0 where
  pub from_user : c.parse_uuid user ≡ some m.sender_id
  pub in_chat : (chats.count_members m.chat_id m.sender_id w).0 ≢ 0

authorised :
    {W B : Type 0} (c : Codec B) (chats : Chats W) (w : W) (user : String) (m : Message)
    {chat sender : Uuid}
    → m.chat_id ≡ chat
    → m.sender_id ≡ sender
    → c.parse_uuid user ≡ some sender
    → ((chats.count_members chat sender w).0 == 0) ≡ false
    → IsAuthorised c chats w user m
authorised c chats w user m p q parsed counted = record {
  from_user = rw q parsed;
  in_chat = rw p (rw q (λ e. ground arith));
}

-- gorm's `Create` fills in the sequence number, which the database counts, and nothing else.
abbrev pub FillsSequence : {W : Type 0} → Create W Message → Type 0
FillsSequence {W} create =
    (m : Message) (w : W)
    → (create m w).0.1 ≡ record m { sequence_number = (create m w).0.1.sequence_number }

module _ {W B : Type 0} (host : Host W) (c : Codec B) (echo : Echo W) (kafka : Kafka W B)
    (chats : Chats W) (create : Create W Message) (fills : FillsSequence create) where
  send_as-Traced :
      (user : String) (sender chat : Uuid) (input : SendInput) (env : Env W B)
      → c.parse_uuid user ≡ some sender
      → Traced c
          (IsAuthorised c chats env.world user)
          env
          (send_as host c echo kafka chats create sender chat input env).1
  unfolding send_as
  send_as-Traced user sender chat input env parsed =
      let env₁ = (call (chats.count_members chat sender) env).1 in
      let env₂ = (call host.new_uuid env₁).1 in
      let env₃ = (call host.now env₂).1 in
      let m : Message = record {
        id = (host.new_uuid env₁.world).0;
        chat_id = chat;
        sender_id = sender;
        text = input.text;
        payload = end;
        sequence_number = 0;
        created_at = (host.now env₂.world).0;
      } in
      let err = (create m env₃.world).0.0 in
      let m' = (create m env₃.world).0.1 in
      let filled = fills m env₃.world in
      let env₄ = (insert create message_row m env₃).1 in
      let note' = announcement c input.chat_id m' in
      elim (Bool-cases ((chats.count_members chat sender env.world).0 == 0)) [
        | inl q ↦ (
          replied 403 (error_body "you are not a member of this chat") ∷ [],
          ground arith,
          refused 403 _ (omega arith),
        )
        | inr q ↦
            let ok =
              authorised c chats env.world user m' (ap (λ x. x.chat_id) filled)
                (ap (λ x. x.sender_id) filled) parsed q in
            elim (Option-cases err) [
              | inr (e, q') ↦ (
                replied 500 (error_body "failed to save message")
                    ∷ inserted (message_row m') (some e)
                    ∷ [],
                ground arith,
                unsaved _ m' e ok,
              )
              | inl q' ↦ elim (Option-cases (kafka.write note' env₄.world).0) [
                | inr (e, q'') ↦ (
                  replied 500 (error_body ("kafka error: " <> e))
                      ∷ published note' (some e)
                      ∷ inserted (message_row m') none
                      ∷ [],
                  ground arith,
                  unsent _ input.chat_id m' e ok,
                )
                | inl q'' ↦ (
                  replied 200 (
                        obj (
                          field "id" (str (c.uuid_text m'.id)) (
                            field "seq" (num m'.sequence_number)
                              (field "status" (str "sent") end))))
                      ∷ published note' none
                      ∷ inserted (message_row m') none
                      ∷ [],
                  ground arith,
                  sent _ input.chat_id m' ok,
                )
              ]
            ]
      ]

  send_checked-Traced :
      (user : String) (input : SendInput) (env : Env W B)
      → Traced c
          (IsAuthorised c chats env.world user)
          env
          (send_checked host c echo kafka chats create user input env).1
  unfolding send_checked
  send_checked-Traced user input env =
      elim (Bool-cases (str_eq input.chat_id "" || str_eq input.text "")) [
        | inl q ↦ (
          replied 400 (error_body "chat_id and text are required") ∷ [],
          rw q refl,
          refused 400 _ (omega arith),
        )
        | inr q ↦ elim (Option-cases (c.parse_uuid user)) [
          | inl q' ↦ (
            replied 401 (error_body "invalid sender id") ∷ [],
            ground arith,
            refused 401 _ (omega arith),
          )
          | inr (sender, q') ↦ elim (Option-cases (c.parse_uuid input.chat_id)) [
            | inl q'' ↦ (
              replied 400 (error_body "invalid chat id format") ∷ [],
              ground arith,
              refused 400 _ (omega arith),
            )
            | inr (chat, q'') ↦
                let (added, e, t) = send_as-Traced user sender chat input env q' in
                (added, ground arith, t)
          ]
        ]
      ]

-- A call of `SendMessage` for a user whom the token names makes, whatever the database and Kafka
-- answer, the calls of one of four traces: one refusal with a status other than 200; an insert that
-- failed, and a 500; an insert, a failed write to Kafka, and a 500; or an insert, a write to Kafka
-- of exactly the message that was inserted, and a 200. In the last three the sender is the user of
-- the token and was found in the chat of the message.
pub send_message-Traced :
    {W B : Type 0} (host : Host W) (c : Codec B) (echo : Echo W) (kafka : Kafka W B)
    (chats : Chats W) (create : Create W Message) (value : UserValue) (user : String)
    (body : Option SendInput) (env : Env W B)
    → FillsSequence create
    → named_user value ≡ some user
    → Traced c
        (IsAuthorised c chats env.world user)
        env
        (send_message host c echo kafka chats create value body env).1
unfolding send_message send_body
send_message-Traced host c echo kafka chats create value user none env fills named =
    rw (with_sender_named echo (send_body host c echo kafka chats create none) value user env named)
      (replied 400 (error_body "invalid request") ∷ [], refl, refused 400 _ (omega arith))
send_message-Traced host c echo kafka chats create value user (some input) env fills named =
    rw
      (with_sender_named echo (send_body host c echo kafka chats create (some input)) value user env
        named)
      (send_checked-Traced host c echo kafka chats create fills user input env)
