-- ===== src/Tests/Accounts.antt =====
-- Registration, login and the router (src/internal/transport/rest, src/api/router) in memory.
use go_service_bao_fight.Base.{◌≡◌, refl, String, none, some, [], ◌∷◌, str_eq, All}
use go_service_bao_fight.Base.Json.{Json}
use go_service_bao_fight.Effects.{replied, error_body}
use go_service_bao_fight.Models.{User}
use go_service_bao_fight.Rest.Sessions.{ClientInfo}
use go_service_bao_fight.Rest.Accounts.{Credentials, Users, Bcrypt, login_user, register_user}
use go_service_bao_fight.Rest.Accounts.Login.{LoginTraced, IsKnown, login_user_traced}
use go_service_bao_fight.Rest.Accounts.Trace.{RegisterTraced, IsNewUser, register_user_traced}
use go_service_bao_fight.Api.{send_message, enabled, routes, new_router}
use go_service_bao_fight.Api.Routes.{
  serves, serves-routes, routes-guarded, needs_token, login_refused,
}
use go_service_bao_fight.Tests.World.{Memory, codec, empty, quiet, host, echo, kafka, sessions}

abbrev ann : User
ann = record {
  id = 7;
  email = "ann@x";
  password_hash = "correct horse!";
  created_at = 1;
  updated_at = 1;
}

abbrev bob : User
bob = record ann { id = 8; email = "bob@x" }

abbrev users : Users Memory
users = record { create = λ u w. ((none, u), w); find_email = λ email w. (some ann, w) }

abbrev bcrypt : Bcrypt Memory
bcrypt = record { hash = λ p w. (some p, w); matches = λ h p. str_eq h p }

abbrev browser : ClientInfo
browser = record { user_agent = "browser"; real_ip = "::1" }

abbrev input : Credentials
input = record { email = "ann@x"; password = "correct horse!" }

abbrev sign : Json → String
sign j = "signed"

login_user_traced_example :
    LoginTraced codec
      (IsKnown users bcrypt empty (some input))
      (quiet empty)
      (login_user host codec sign sessions echo
        (some (λ i. none))
        users
        bcrypt
        browser
        (some input)
        (quiet empty)).1
login_user_traced_example =
    login_user_traced host codec sign sessions echo (some (λ i. none)) users bcrypt browser
      (some input) (quiet empty) (λ s w. refl)

register_user_traced_example :
    RegisterTraced codec
      (IsNewUser bcrypt empty (some input))
      (quiet empty)
      (register_user host codec sign sessions echo users bcrypt kafka browser
        (some input)
        (quiet empty)).1
register_user_traced_example =
    register_user_traced host codec sign sessions echo users bcrypt kafka browser (some input)
      (quiet empty) (λ s w. refl) (λ u w. refl)

login_refused_example :
    (login_user host codec sign sessions echo
      (new_router ("all" ∷ [])).validator
      users
      bcrypt
      browser
      (some input)
      (quiet empty)).1.log
    ≡ replied 400 (error_body "bad request") ∷ []
login_refused_example =
    login_refused host codec sign sessions echo ("all" ∷ []) users bcrypt browser (some input)
      (quiet empty)

serves-routes_example :
    serves send_message (routes ("web_socket" ∷ [])) ≡ enabled ("web_socket" ∷ []) "send_message"
serves-routes_example = serves-routes send_message ("web_socket" ∷ [])

routes-guarded_example : All (λ r. r.guarded ≡ needs_token r.endpoint) (routes ("all" ∷ []))
routes-guarded_example = routes-guarded ("all" ∷ [])
