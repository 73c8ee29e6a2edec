-- ===== src/Rest/Sessions/Rotation.antt =====
-- What `Refresh` does to the table of sessions (src/internal/transport/rest/session_handler.go).
use go_service_bao_fight.Base.{
  ◌+◌, ◌*◌, ◌≡◌, inl, inr, refl, sym, ap, ◌∙◌, String, Bool, true, Option, none, some, ◌∷◌, arith,
  str_eq_iff, Option-cases,
}
use go_service_bao_fight.Base.Json.{Json}
use go_service_bao_fight.Effects.{Env, call, Echo, replied, error_body}
use go_service_bao_fight.Models.{Uuid, Session, Time, zero_time, hour}
use go_service_bao_fight.Models.Codec.{Codec}
use go_service_bao_fight.Outside.{Host}
use go_service_bao_fight.Rest.Sessions.{
  Sessions, ClientInfo, tokens_body, create_session, rotate, refresh,
}
use go_service_bao_fight.Rest.Sessions.Table.{
  Rows, unexpired, IsSessionTable, IsTableApart, IsIssuer,
}

-- The database carries out the deletes of the session of this token.
abbrev pub Deletes : {W : Type 0} → Sessions W → String → Type 0
Deletes {W} sessions t =
    ((w : W) → (sessions.delete_token t w).0 ≡ none)
    × ((s : Session) (w : W) → s.refresh_token ≡ t → (sessions.delete s w).0 ≡ none)

unexpired-some :
    (now : Time) (o : Option Session) {s : Session} → unexpired now o ≡ some s → o ≡ some s
unexpired-some now none h = cc
unexpired-some now (some x) h = ground arith

module _ {W B : Type 0} (host : Host W) (c : Codec B) (sign : Json → String) (sessions : Sessions W)
    (echo : Echo W) (row : Rows W) (table : IsSessionTable sessions row)
    (p : IsTableApart host echo row) (issued : W → String → Bool)
    (issuer : IsIssuer host c sessions issued) where
  -- A token of the past has no row after a new session, if it had none before.
  row-create_session :
      (t : String) (client : ClientInfo) (user : Uuid) (env : Env W B)
      → issued env.world t ≡ true
      → row env.world t ≡ none
      → row (create_session host c sign sessions client user env).1.world t ≡ none
  unfolding create_session
  row-create_session t client user env old gone =
      let env₁ = (call host.now env).1 in
      let env₂ = (call host.new_uuid env₁).1 in
      let env₃ = (call host.new_uuid env₂).1 in
      let env₄ = (call host.now env₃).1 in
      let s : Session = record {
        id = (host.new_uuid env₂.world).0;
        user_id = user;
        refresh_token = c.uuid_text (host.new_uuid env₁.world).0;
        user_agent = client.user_agent;
        client_ip = client.real_ip;
        expires_at = (host.now env₃.world).0 + 24 * 30 * hour;
        created_at = zero_time;
      } in
      ground (
        arith,
        p.now env.world t,
        p.new_uuid env₁.world t,
        p.new_uuid env₂.world t,
        p.now env₃.world t,
        issuer.fresh t env₁.world (issuer.issued-now t env.world old),
        table.row-create s env₄.world t,
      )

  row-rotate :
      (t : String) (client : ClientInfo) (s : Session) (env : Env W B)
      → Deletes sessions t
      → issued env.world t ≡ true
      → row env.world t ≡ some s
      → row (rotate host c sign sessions echo client s env).1.world t ≡ none
  unfolding rotate
  row-rotate t client s env deletes old found =
      let env₁ : Env W B = record env { world = (sessions.delete s env.world).1 } in
      let token = table.keyed t s env.world found in
      let gone : row env₁.world t ≡ none =
        table.row-delete s env.world t (ap (row env.world) token ∙ found)
        ∙ rw (deletes.1 s env.world token)
            (rw ((str_eq_iff t s.refresh_token).1 (sym token)) refl) in
      let made =
        row-create_session t client s.user_id env₁ (issuer.issued-delete s t env.world old) gone in
      let env₂ = (create_session host c sign sessions client s.user_id env₁).1 in
      ground (
        arith,
        made,
        p.json 500 (error_body "could not refresh") env₂.world t,
        p.json 200 (tokens_body (create_session host c sign sessions client s.user_id env₁).0)
            env₂.world t,
      )

  refresh_uses_up :
      (t : String) (client : ClientInfo) (env : Env W B)
      → Deletes sessions t
      → issued env.world t ≡ true
      → row (refresh host c sign sessions echo client (some t) env).1.world t ≡ none
  unfolding refresh
  refresh_uses_up t client env deletes old =
      let env₁ = (call host.now env).1 in
      let env₂ = (call (sessions.find t (host.now env.world).0) env₁).1 in
      let env₃ = (call (sessions.delete_token t) env₂).1 in
      elim (Option-cases (sessions.find t (host.now env.world).0 env₁.world).0) [
        | inl q ↦ ground (
          arith,
          deletes.0 env₂.world,
          table.row-delete_token t env₂.world t,
          (str_eq_iff t t).1 refl,
          p.json 401 (error_body "session expired or invalid") env₃.world t,
        )
        | inr (s, q) ↦ ground (
          arith,
          row-rotate t client s env₂ deletes
              (issuer.issued-find t (host.now env.world).0 t env₁.world
                (issuer.issued-now t env.world old))
              (table.row-find t (host.now env.world).0 env₁.world t
                ∙ unexpired-some _ _
                    (sym (table.find_lem t (host.now env.world).0 env₁.world) ∙ q)),
        )
      ]

  refresh_unknown :
      (t : String) (client : ClientInfo) (env : Env W B)
      → row env.world t ≡ none
      → (refresh host c sign sessions echo client (some t) env).1.log
        ≡ replied 401 (error_body "session expired or invalid") ∷ env.log
  unfolding refresh
  refresh_unknown t client env gone =
      let env₁ = (call host.now env).1 in
      let none_left : (sessions.find t (host.now env.world).0 env₁.world).0 ≡ none =
        table.find_lem t (host.now env.world).0 env₁.world
        ∙ ap (unexpired (host.now env.world).0) (p.now env.world t ∙ gone) in
      ground (arith, none_left)

-- A refresh token that was issued serves once. After a call of `Refresh` with it, however that call
-- ended (rotated, failed to make the new session, expired or unknown), the table has no session of this
-- token, and a second call, from any client, is answered by a 401 and makes no session. This holds
-- where the database carries out the deletes of this token's session, whose error a rotation drops,
-- and a new id is never spelled like one made before.
pub refresh_once :
    {W B : Type 0} (host : Host W) (c : Codec B) (sign : Json → String) (sessions : Sessions W)
    (echo : Echo W) (row : Rows W) (issued : W → String → Bool) (t : String)
    (client again : ClientInfo) (env : Env W B)
    → IsSessionTable sessions row
    → IsTableApart host echo row
    → IsIssuer host c sessions issued
    → Deletes sessions t
    → issued env.world t ≡ true
    → let env' = (refresh host c sign sessions echo client (some t) env).1 in
      (row env'.world t ≡ none)
      × ((refresh host c sign sessions echo again (some t) env').1.log
          ≡ replied 401 (error_body "session expired or invalid") ∷ env'.log)
refresh_once host c sign sessions echo row issued t client again env table p issuer deletes old =
    let gone =
      refresh_uses_up host c sign sessions echo row table p issued issuer t client env deletes
        old in
    (gone, refresh_unknown host c sign sessions echo row table p issued issuer t again _ gone)
