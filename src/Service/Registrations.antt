-- ===== src/Service/Registrations.antt =====
-- src/internal/service/register_user_service.go. The body of `Process` is commented out; what is
-- left of it is the loop that reports addresses that were taken.
use go_service_bao_fight.Base.{
  ◌≡◌, refl, sym, ◌∙◌, Bool, true, false, ◌||◌, none, List, [], ◌∷◌, ◌++◌, map, append_assoc,
  append-nil, ◌==◌, if◌then◌else◌, Bool-cases, inl, inr,
}
use go_service_bao_fight.Base.Json.{str, obj, end, field}
use go_service_bao_fight.Effects.{Env, KafkaMessage, M, pure, ◌>>◌, Kafka, publish, sent_messages}
use go_service_bao_fight.Models.{Uuid, User}
use go_service_bao_fight.Models.Codec.{Codec}
use go_service_bao_fight.Models.Topics.{user_register_error}
use go_service_bao_fight.Worker.Loop.{Handler}

-- `UserRegisterHandler.Process`
abbrev pub process : {W B : Type 0} → Handler W B
process batch w = (none, w)

-- The loop that fills `insertedMap`; a key that is not there reads as false.
unfoldable pub fill_map : List Uuid → (Uuid → Bool) → Uuid → Bool
fill_map [] m = m
fill_map (id ∷ ids) m = fill_map ids (λ u. if u == id then true else m u)

-- The message for the address of a user.
abbrev pub conflict : {B : Type 0} → Codec B → User → KafkaMessage B
conflict c user = record {
  topic = user_register_error;
  key = user.email;
  value = c.json_text (
      obj (
        field "email" (str user.email)
          (field "error" (str "email_already_taken") (field "status" (str "failed") end))));
}

module _ {W B : Type 0} (c : Codec B) (kafka : Kafka W B) where
  unfoldable pub report_missing : (Uuid → Bool) → List User → M W B (Unit {0})
  report_missing present [] = pure tt
  report_missing present (user ∷ users) = do
    if present user.id then pure tt else (do publish kafka (conflict c user); pure tt)
    report_missing present users

  unfoldable pub handle_duplicates : List User → List Uuid → M W B (Unit {0})
  unfolding fill_map
  handle_duplicates original inserted = report_missing (fill_map inserted (λ u. false)) original

abbrev pub is_listed : Uuid → List Uuid → Bool
is_listed u [] = false
is_listed u (id ∷ ids) = u == id || is_listed u ids

-- The users whose id is not listed, in order.
abbrev pub unlisted : List Uuid → List User → List User
unlisted ids [] = []
unlisted ids (user ∷ users) =
    if is_listed user.id ids then unlisted ids users else user ∷ unlisted ids users

fill_map_lem :
    (ids : List Uuid) (m : Uuid → Bool) (u : Uuid) → fill_map ids m u ≡ is_listed u ids || m u
unfolding fill_map
fill_map_lem [] m u = refl
fill_map_lem (id ∷ ids) m u =
    fill_map_lem ids (λ v. if v == id then true else m v) u ∙ by_cases (u == id) (is_listed u ids)
  where
    by_cases : (x y : Bool) → y || (if x then true else m u) ≡ (x || y) || m u
    by_cases true true = refl
    by_cases true false = refl
    by_cases false y = refl

or_false : (b : Bool) → b || false ≡ b
or_false true = refl
or_false false = refl

present_lem : (ids : List Uuid) (u : Uuid) → fill_map ids (λ v. false) u ≡ is_listed u ids
present_lem ids u = fill_map_lem ids (λ v. false) u ∙ or_false _

module _ {W B : Type 0} (c : Codec B) (kafka : Kafka W B) (ids : List Uuid) where
  sent-report_missing :
      (users : List User) (env : Env W B)
      → sent_messages (report_missing c kafka (fill_map ids (λ u. false)) users env).1.log
        ≡ sent_messages env.log ++ map (conflict c) (unlisted ids users)
  unfolding report_missing
  sent-report_missing [] env = sym (append-nil _)
  sent-report_missing (user ∷ users) env = elim (Bool-cases (is_listed user.id ids)) [
    | inl e ↦ rw (present_lem ids user.id) (rw e (sent-report_missing users env))
    | inr e ↦ rw (present_lem ids user.id) (
        rw e (
          sent-report_missing users (publish kafka (conflict c user) env).1
          ∙ append_assoc (sent_messages env.log) (conflict c user ∷ []) _))
  ]

-- For any users and any ids of inserted rows, whatever Kafka answers: exactly the users whose id is
-- not among the inserted ones are reported, one message each, in their order.
sent-handle_duplicates :
    {W B : Type 0} (c : Codec B) (kafka : Kafka W B) (original : List User) (inserted : List Uuid)
    (env : Env W B)
    → sent_messages (handle_duplicates c kafka original inserted env).1.log
      ≡ sent_messages env.log ++ map (conflict c) (unlisted inserted original)
unfolding handle_duplicates
sent-handle_duplicates c kafka original inserted env =
    sent-report_missing c kafka inserted original env
