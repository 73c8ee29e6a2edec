-- ===== src/Rest/Auth.antt =====
-- `getSenderID` (src/internal/transport/rest/message_handler.go): the id of the user whose token the
-- middleware has put into the request's context.
pub mod Outcomes
use go_service_bao_fight.Base.{ℕ, String, ◌≡◌, Option, none, some, str_eq, if◌then◌else◌}
use go_service_bao_fight.Base.Json.{Json, str, Fields, end, key_is, decode_struct, get_key}
use go_service_bao_fight.Effects.{GoError, M, pure, ◌>>=◌, Echo, reply, error_body}
use go_service_bao_fight.Models.Codec.{decode_map}

-- `c.Get("user")`: nil, or a value by the JSON that it marshals to (none if json.Marshal fails).
abbrev pub UserValue : Type 0
UserValue = Option (Option Json)

-- The struct `{Claims map[string]interface{} "claims"}`.
set_claims : String → Json → Fields → Option Fields
set_claims k v claims = if key_is k "claims" then decode_map claims v else some claims

-- `json.Unmarshal(jsonBytes, &tokenData)`; the empty text of a failed Marshal does not parse.
unfoldable pub token_claims : Option Json → Option Fields
unfolding set_claims
token_claims none = none
token_claims (some j) = decode_struct set_claims end j

abbrev as_string : Option Json → String
as_string (some (str s)) = s
as_string _ = ""

-- `tokenData.Claims["user_id"].(string)`, or "" if it is missing or no string.
unfoldable pub claimed_id : Fields → String
claimed_id claims = as_string (get_key "user_id" claims)

module _ {W B : Type 0} (echo : Echo W) where
  -- The error that comes back on a failure is that of writing the response: nil when the response
  -- was written.
  unfoldable pub get_sender_id : UserValue → M W B (String × Option GoError)
  get_sender_id none = do err ← reply echo 401 (error_body "token missing"); pure ("", err)
  get_sender_id (some user) = elim (token_claims user) [
    | none ↦ do err ← reply echo 500 (error_body "internal token error"); pure ("", err)
    | some claims ↦
        if str_eq (claimed_id claims) ""
        then (do err ← reply echo 401 (error_body "user_id missing"); pure ("", err))
        else pure (claimed_id claims, none)
  ]

  -- How every handler that needs the user begins: `if err != nil { return err }`.
  unfoldable pub with_sender :
      UserValue → (String → M W B (Option GoError)) → M W B (Option GoError)
  with_sender user k = do
    (sender, err) ← get_sender_id user
    elim err [ some e ↦ pure (some e) | none ↦ k sender ]

-- The user that the request names, if it names one.
unfoldable pub named_user : UserValue → Option String
named_user none = none
named_user (some user) = elim (token_claims user) [
  | none ↦ none
  | some claims ↦ if str_eq (claimed_id claims) "" then none else some (claimed_id claims)
]

-- echo writes every response.
abbrev pub Writes : {W : Type 0} → Echo W → Type 0
Writes {W} echo = (status : ℕ) (body : Json) (w : W) → (echo.json status body w).0 ≡ none
