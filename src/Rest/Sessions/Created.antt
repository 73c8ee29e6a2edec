-- ===== src/Rest/Sessions/Created.antt =====
-- What `createSession` leaves behind (src/internal/transport/rest/session_handler.go).
use go_service_bao_fight.Base.{◌+◌, ◌*◌, ◌≡◌, ap, ◌∷◌, arith, String}
use go_service_bao_fight.Base.Json.{Json}
use go_service_bao_fight.Effects.{Env, session_row, inserted, call, Create}
use go_service_bao_fight.Models.{Uuid, Session, zero_time, hour}
use go_service_bao_fight.Models.Codec.{Codec}
use go_service_bao_fight.Outside.{Host}
use go_service_bao_fight.Rest.Sessions.{Sessions, ClientInfo, Tokens, create_session}
use go_service_bao_fight.Rest.Sessions.Table.{on_success}

-- One insert, of a session of this user; its token is the refresh token that comes back on success.
pub record IsSessionMade {W B : Type 0} (user : Uuid) (before after : Env W B) (tokens : Tokens)
    : Type 0 where
  pub made : Session
  pub logged : after.log ≡ inserted (session_row made) tokens.err ∷ before.log
  pub owner : made.user_id ≡ user
  pub token : tokens.refresh ≡ on_success tokens.err made.refresh_token ""

-- `Create` fills in the time of creation alone.
abbrev pub FillsCreated : {W : Type 0} → Create W Session → Type 0
FillsCreated {W} create =
    (s : Session) (w : W) → (create s w).0.1 ≡ record s { created_at = (create s w).0.1.created_at }

pub create_session-IsSessionMade :
    {W B : Type 0} (host : Host W) (c : Codec B) (sign : Json → String) (sessions : Sessions W)
    (client : ClientInfo) (user : Uuid) (env : Env W B)
    → FillsCreated sessions.create
    → IsSessionMade user env
        (create_session host c sign sessions client user env).1
        (create_session host c sign sessions client user env).0
unfolding create_session
create_session-IsSessionMade host c sign sessions client user env fills =
    let env₁ = (call host.now env).1 in
    let env₂ = (call host.new_uuid env₁).1 in
    let env₃ = (call host.new_uuid env₂).1 in
    let env₄ = (call host.now env₃).1 in
    let s : Session = record {
      id = (host.new_uuid env₂.world).0;
      user_id = user;
      refresh_token = c.uuid_text (host.new_uuid env₁.world).0;
      user_agent = client.user_agent;
      client_ip = client.real_ip;
      expires_at = (host.now env₃.world).0 + 24 * 30 * hour;
      created_at = zero_time;
    } in
    record {
      made = (sessions.create s env₄.world).0.1;
      logged = ground arith;
      owner = ap (λ x. x.user_id) (fills s env₄.world);
      token = ground (arith, ap (λ x. x.refresh_token) (fills s env₄.world));
    }
