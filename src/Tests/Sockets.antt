-- ===== src/Tests/Sockets.antt =====
-- Web sockets (src/internal/transport/rest/message_handler.go): one user opens two tabs, and another
-- one comes in between.
use go_service_bao_fight.Base.{ℕ, ◌≡◌, refl, none, some, List, [], ◌∷◌, inr, str_eq, ◌+◌}
use go_service_bao_fight.Base.Json.{Json, str, obj, end, field, decode_struct, key_is, get_key}
use go_service_bao_fight.Effects.{Env, Echo}
use go_service_bao_fight.Models.Codec.{decode_map}
use go_service_bao_fight.Rest.Auth.{UserValue, named_user, token_claims, claimed_id}
use go_service_bao_fight.Rest.Hub.{HubEvent, connected, closed, new_hub, hub_run}
use go_service_bao_fight.Rest.Hub.Serving.{Shared, WebSockets, IsHeld, handle_ws, handle_ws-IsHeld}

-- The outer world counts the sockets.
abbrev net : WebSockets ℕ
net = record { upgrade = λ n. (inr n, n + 1); read_until_closed = λ ws n. n; close = λ ws n. n }

abbrev echo : Echo (Shared ℕ)
echo = record { json = λ status body s. (none, s) }

abbrev earlier : List HubEvent
earlier = connected "uu" 1 ∷ []

abbrev others : List HubEvent
others = connected "bob" 2 ∷ closed "uu" 1 ∷ []

abbrev before : Env (Shared ℕ) Json
before = record { world = record { hub = hub_run earlier new_hub; outer = 3 }; log = [] }

abbrev token : UserValue
token = some (some (obj (field "Claims" (obj (field "user_id" (str "uu") end)) end)))

token-named : named_user token ≡ some "uu"
unfolding named_user token_claims claimed_id decode_struct key_is decode_map str_eq get_key
token-named = refl

handle_ws-IsHeld_example :
    IsHeld earlier others "uu" before (handle_ws echo net others token before)
handle_ws-IsHeld_example =
    handle_ws-IsHeld echo net earlier others token "uu" before refl token-named
