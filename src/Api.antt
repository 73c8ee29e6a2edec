-- ===== src/Api.antt =====
-- src/api/router/router.go: which routes the API serves, by the services it is started with
-- (src/internal/infrastructure/start_flags/flags.go).
pub mod Flags
pub mod Routes
use go_service_bao_fight.Base.{
  String, Bool, true, false, ◌||◌, ◌<>◌, Option, none, List, [], ◌∷◌, ◌++◌, str_eq, if◌then◌else◌,
}
use go_service_bao_fight.Config.{Environment, os_getenv}
use go_service_bao_fight.Effects.{GoError}
use go_service_bao_fight.Api.Flags
use go_service_bao_fight.Rest.Accounts.{Validator}

pub data Method : Type 0 where
  get : Method
  post : Method

-- The methods of `rest.Handler` that serve a route.
pub data Endpoint : Type 0 where
  health : Endpoint
  register_user : Endpoint
  login_user : Endpoint
  refresh : Endpoint
  logout : Endpoint
  search_user : Endpoint
  send_message : Endpoint
  handle_ws : Endpoint
  get_chats : Endpoint
  get_chat_history : Endpoint
  join_chat : Endpoint
  get_profile : Endpoint
  change_profile : Endpoint
  get_upload_url : Endpoint
  confirm_upload : Endpoint
  get_discovery : Endpoint
  set_reaction : Endpoint
  get_liking_profiles : Endpoint

-- A route, and whether the JWT middleware guards it.
pub record Route : Type 0 where
  pub method : Method
  pub path : String
  pub endpoint : Endpoint
  pub guarded : Bool

-- An echo instance, as far as the program sets it up.
pub record Server : Type 0 where
  pub routes : List Route
  pub validator : Validator

-- `slices.Contains`
unfoldable pub has_service : List String → String → Bool
has_service [] name = false
has_service (x ∷ xs) name = str_eq x name || has_service xs name

unfoldable pub enabled : List String → String → Bool
enabled services name = has_service services name || has_service services "all"

abbrev pub when : Bool → List Route → List Route
when b rs = if b then rs else []

-- A route of the group `/api/v1`, and one of its guarded group `/api/v1/prot`.
abbrev pub open_route : Method → String → Endpoint → Route
open_route method path endpoint = record {
  method = method;
  path = "/api/v1" <> path;
  endpoint = endpoint;
  guarded = false;
}

abbrev pub protected : Method → String → Endpoint → Route
protected method path endpoint = record {
  method = method;
  path = "/api/v1" <> ("/prot" <> path);
  endpoint = endpoint;
  guarded = true;
}

abbrev pub reaction : Method → String → Endpoint → Route
reaction method path endpoint = protected method ("/reaction_system" <> path) endpoint

-- The body of one `if enabled(service) { ... }`.
pub record Block : Type 0 where
  pub service : String
  pub body : List Route

-- The blocks of `NewRouter`, in order.
abbrev pub blocks : List Block
blocks =
    record { service = Flags.user_register; body = open_route post "/register" register_user ∷ [] }
    ∷ record { service = Flags.user_login; body = open_route post "/login" login_user ∷ [] }
    ∷ record {
      service = Flags.refresh_session;
      body = protected post "/refresh_session" refresh ∷ [];
    }
    ∷ record {
      service = Flags.logout_from_session;
      body = protected post "/logout_from_session" logout ∷ [];
    }
    ∷ record { service = Flags.search_user; body = protected get "/search/user" search_user ∷ [] }
    ∷ record {
      service = Flags.send_message;
      body = protected post "/message/send" send_message ∷ [];
    }
    ∷ record { service = Flags.web_socket; body = protected get "/ws" handle_ws ∷ [] }
    ∷ record {
      service = Flags.get_messages;
      body =
          protected get "/get_chats" get_chats
          ∷ protected get "/chat/history" get_chat_history
          ∷ protected post "/join_chat" join_chat
          ∷ [];
    }
    ∷ record {
      service = Flags.change_profile;
      body =
          protected get "/get_profile" get_profile
          ∷ protected post "/change_profile" change_profile
          ∷ [];
    }
    ∷ record {
      service = Flags.change_profile_avatar;
      body =
          protected get "/change_profile_avatar_url" get_upload_url
          ∷ protected post "/confirm_change_profile_avatar" confirm_upload
          ∷ [];
    }
    ∷ record {
      service = Flags.reaction_worker;
      body =
          reaction get "/get_recommended_profiles" get_discovery
          ∷ reaction post "/set_reaction" set_reaction
          ∷ reaction get "/get_liking_me_profiles" get_liking_profiles
          ∷ [];
    }
    ∷ []

abbrev pub add_blocks : List String → List Block → List Route
add_blocks services [] = []
add_blocks services (b ∷ bs) = when (enabled services b.service) b.body ++ add_blocks services bs

unfoldable pub routes : List String → List Route
routes services =
    record { method = get; path = "/health"; endpoint = health; guarded = false }
    ∷ add_blocks services blocks

-- `NewRouter`: no validator is set.
unfoldable pub new_router : List String → Server
new_router services = record { routes = routes services; validator = none }

-- `Server.Run` (src/server/server.go); `start` is `Start` of echo, with an address.
unfoldable pub run_server :
    {W : Type 0}
    → (Server → String → W → Option GoError × W)
    → Environment
    → List String
    → W
    → Option GoError × W
run_server start env mode =
    let port = os_getenv env "PORT" in
    start (new_router mode) (":" <> (if str_eq port "" then "8080" else port))
