-- ===== src/Api/Routes.antt =====
-- Which endpoints are served, and which of them need a token (src/api/router/router.go).
use go_service_bao_fight.Base.{
  ℕ, String, ◌≡◌, refl, sym, ap, ◌∙◌, Bool, true, false, ◌||◌, none, some, Option, List, [], ◌∷◌,
  ◌++◌, All, ◌==◌,
}
use go_service_bao_fight.Base.Json.{Json}
use go_service_bao_fight.Effects.{Env, Echo, replied, error_body}
use go_service_bao_fight.Models.Codec.{Codec}
use go_service_bao_fight.Outside.{Host}
use go_service_bao_fight.Rest.Sessions.{Sessions, ClientInfo}
use go_service_bao_fight.Rest.Accounts.{Users, Bcrypt, Credentials, login_user}
use go_service_bao_fight.Api.Flags
use go_service_bao_fight.Api.{
  Endpoint, health, register_user, login_user as login_endpoint, refresh, logout, search_user,
  send_message, handle_ws, get_chats, get_chat_history, join_chat, get_profile, change_profile,
  get_upload_url, confirm_upload, get_discovery, set_reaction, get_liking_profiles, Route, Block,
  blocks, add_blocks, when, enabled, routes, new_router,
}

abbrev index : Endpoint → ℕ
index health = 0
index register_user = 1
index login_endpoint = 2
index refresh = 3
index logout = 4
index search_user = 5
index send_message = 6
index handle_ws = 7
index get_chats = 8
index get_chat_history = 9
index join_chat = 10
index get_profile = 11
index change_profile = 12
index get_upload_url = 13
index confirm_upload = 14
index get_discovery = 15
index set_reaction = 16
index get_liking_profiles = 17

-- Some route of the list leads to the endpoint.
abbrev pub serves : Endpoint → List Route → Bool
serves e [] = false
serves e (r ∷ rs) = index r.endpoint == index e || serves e rs

-- The service that an endpoint belongs to; the health check belongs to all.
abbrev pub service_of : Endpoint → Option String
service_of health = none
service_of register_user = some Flags.user_register
service_of login_endpoint = some Flags.user_login
service_of refresh = some Flags.refresh_session
service_of logout = some Flags.logout_from_session
service_of search_user = some Flags.search_user
service_of send_message = some Flags.send_message
service_of handle_ws = some Flags.web_socket
service_of get_chats = some Flags.get_messages
service_of get_chat_history = some Flags.get_messages
service_of join_chat = some Flags.get_messages
service_of get_profile = some Flags.change_profile
service_of change_profile = some Flags.change_profile
service_of get_upload_url = some Flags.change_profile_avatar
service_of confirm_upload = some Flags.change_profile_avatar
service_of get_discovery = some Flags.reaction_worker
service_of set_reaction = some Flags.reaction_worker
service_of get_liking_profiles = some Flags.reaction_worker

abbrev pub is_on : List String → Option String → Bool
is_on services none = true
is_on services (some name) = enabled services name

-- Registration and login are for those who have no token yet.
abbrev pub needs_token : Endpoint → Bool
needs_token health = false
needs_token register_user = false
needs_token login_endpoint = false
needs_token _ = true

-- What one block adds to the answer: `b` if it holds the endpoint.
abbrev pick : Bool → Bool → Bool → Bool
pick true b rest = b || rest
pick false b rest = rest

abbrev served : List String → Endpoint → List Block → Bool
served services e [] = false
served services e (b ∷ bs) =
    pick (serves e b.body) (enabled services b.service) (served services e bs)

pick-false : (x b : Bool) → pick x false b ≡ b
pick-false true b = refl
pick-false false b = refl

or_assoc : (a b c : Bool) → a || (b || c) ≡ (a || b) || c
or_assoc true b c = refl
or_assoc false b c = refl

serves-append :
    (e : Endpoint) (rs ys : List Route) → serves e (rs ++ ys) ≡ serves e rs || serves e ys
serves-append e [] ys = refl
serves-append e (r ∷ rs) ys =
    ap (λ x. index r.endpoint == index e || x) (serves-append e rs ys)
    ∙ or_assoc (index r.endpoint == index e) (serves e rs) (serves e ys)

serves-when :
    (e : Endpoint) (b : Bool) (rs ys : List Route)
    → serves e (when b rs ++ ys) ≡ pick (serves e rs) b (serves e ys)
serves-when e false rs ys = sym (pick-false (serves e rs) (serves e ys))
serves-when e true rs ys = serves-append e rs ys ∙ by_cases (serves e rs)
  where
    by_cases : (x : Bool) → x || serves e ys ≡ pick x true (serves e ys)
    by_cases true = refl
    by_cases false = refl

serves-add_blocks :
    (e : Endpoint) (services : List String) (bs : List Block)
    → serves e (add_blocks services bs) ≡ served services e bs
serves-add_blocks e services [] = refl
serves-add_blocks e services (b ∷ bs) =
    serves-when e (enabled services b.service) b.body (add_blocks services bs)
    ∙ ap (pick (serves e b.body) (enabled services b.service)) (serves-add_blocks e services bs)

or_false : (b : Bool) → b || false ≡ b
or_false true = refl
or_false false = refl

-- For any list of services: an endpoint is served if and only if its service, or "all", is in the
-- list; the health check always is.
pub serves-routes :
    (e : Endpoint) (services : List String)
    → serves e (routes services) ≡ is_on services (service_of e)
unfolding routes
serves-routes health services = refl
serves-routes register_user services = serves-add_blocks register_user services blocks ∙ or_false _
serves-routes login_endpoint services =
    serves-add_blocks login_endpoint services blocks ∙ or_false _
serves-routes refresh services = serves-add_blocks refresh services blocks ∙ or_false _
serves-routes logout services = serves-add_blocks logout services blocks ∙ or_false _
serves-routes search_user services = serves-add_blocks search_user services blocks ∙ or_false _
serves-routes send_message services = serves-add_blocks send_message services blocks ∙ or_false _
serves-routes handle_ws services = serves-add_blocks handle_ws services blocks ∙ or_false _
serves-routes get_chats services = serves-add_blocks get_chats services blocks ∙ or_false _
serves-routes get_chat_history services =
    serves-add_blocks get_chat_history services blocks ∙ or_false _
serves-routes join_chat services = serves-add_blocks join_chat services blocks ∙ or_false _
serves-routes get_profile services = serves-add_blocks get_profile services blocks ∙ or_false _
serves-routes change_profile services =
    serves-add_blocks change_profile services blocks ∙ or_false _
serves-routes get_upload_url services =
    serves-add_blocks get_upload_url services blocks ∙ or_false _
serves-routes confirm_upload services =
    serves-add_blocks confirm_upload services blocks ∙ or_false _
serves-routes get_discovery services = serves-add_blocks get_discovery services blocks ∙ or_false _
serves-routes set_reaction services = serves-add_blocks set_reaction services blocks ∙ or_false _
serves-routes get_liking_profiles services =
    serves-add_blocks get_liking_profiles services blocks ∙ or_false _

-- The routes of a block are guarded as `needs_token` says.
abbrev IsGuarded : Route → Type 0
IsGuarded r = r.guarded ≡ needs_token r.endpoint

All-append : (rs ys : List Route) → All IsGuarded rs → All IsGuarded ys → All IsGuarded (rs ++ ys)
All-append [] ys h k = k
All-append (r ∷ rs) ys h k = (h.0, All-append rs ys h.1 k)

All-when : (b : Bool) (rs : List Route) → All IsGuarded rs → All IsGuarded (when b rs)
All-when false rs h = tt
All-when true rs h = h

All-add_blocks :
    (services : List String) (bs : List Block)
    → All (λ b. All IsGuarded b.body) bs
    → All IsGuarded (add_blocks services bs)
All-add_blocks services [] h = tt
All-add_blocks services (b ∷ bs) h =
    All-append (when (enabled services b.service) b.body) (add_blocks services bs)
      (All-when (enabled services b.service) b.body h.0) (All-add_blocks services bs h.1)

-- Whatever the services, the middleware that checks the token stands before every route except
-- those of the health check, of registration and of login.
pub routes-guarded :
    (services : List String) → All (λ r. r.guarded ≡ needs_token r.endpoint) (routes services)
unfolding routes
routes-guarded services = (
  refl,
  All-add_blocks services blocks (
    (refl, tt),
    (
      (refl, tt),
      (
        (refl, tt),
        (
          (refl, tt),
          (
            (refl, tt),
            (
              (refl, tt),
              (
                (refl, tt),
                (
                  (refl, (refl, (refl, tt))),
                  ((refl, (refl, tt)), ((refl, (refl, tt)), ((refl, (refl, (refl, tt))), tt))),
                ),
              ),
            ),
          ),
        ),
      ),
    ),
  ),
)

-- No server that `NewRouter` builds lets anybody log in, as it has no validator: whatever the
-- services, the users and the request, `LoginUser` answers 400 and makes no other call that is
-- recorded.
pub login_refused :
    {W B : Type 0} (host : Host W) (c : Codec B) (sign : Json → String) (sessions : Sessions W)
    (echo : Echo W) (services : List String) (users : Users W) (bcrypt : Bcrypt W)
    (client : ClientInfo) (body : Option Credentials) (env : Env W B)
    → (login_user host c sign sessions echo
        (new_router services).validator
        users
        bcrypt
        client
        body
        env).1.log
      ≡ replied 400 (error_body "bad request") ∷ env.log
unfolding new_router login_user
login_refused host c sign sessions echo services users bcrypt client none env = refl
login_refused host c sign sessions echo services users bcrypt client (some input) env = refl
