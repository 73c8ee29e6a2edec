-- ===== src/Rest/Sessions/Table.antt =====
-- What the handlers of src/internal/transport/rest/session_handler.go rely on: the table of sessions
-- finds, keeps and removes rows by their refresh token, which is unique
-- (migrations/000003_create_session_table.up.sql), and the other systems leave it alone.
use go_service_bao_fight.Base.{
  ℕ, ◌≡◌, Bool, true, false, String, Option, none, some, str_eq, ltb, if◌then◌else◌,
}
use go_service_bao_fight.Base.Json.{Json}
use go_service_bao_fight.Effects.{GoError, Echo}
use go_service_bao_fight.Models.Codec.{Codec}
use go_service_bao_fight.Models.{Time, Session}
use go_service_bao_fight.Outside.{Host}
use go_service_bao_fight.Rest.Sessions.{Sessions}

-- `row w t`: the session whose refresh token is `t`.
abbrev pub Rows : Type 0 → Type 0
Rows W = W → String → Option Session

-- A row that has not expired.
abbrev pub unexpired : Time → Option Session → Option Session
unexpired now none = none
unexpired now (some s) = if ltb now s.expires_at then some s else none

-- A statement that fails changes nothing.
abbrev pub on_success : {A : Type 0} → Option GoError → A → A → A
on_success none changed old = changed
on_success (some e) changed old = old

pub record IsSessionTable {W : Type 0} (sessions : Sessions W) (row : Rows W) : Type 0 where
  pub keyed : (t : String) (s : Session) (w : W) → row w t ≡ some s → s.refresh_token ≡ t
  pub find_lem :
      (t : String) (now : Time) (w : W) → (sessions.find t now w).0 ≡ unexpired now (row w t)
  pub row-find :
      (t : String) (now : Time) (w : W) (j : String) → row (sessions.find t now w).1 j ≡ row w j
  pub row-delete :
      (s : Session) (w : W) (j : String)
      → row w s.refresh_token ≡ some s
      → row (sessions.delete s w).1 j
        ≡ on_success
            (sessions.delete s w).0
            (if str_eq j s.refresh_token then none else row w j)
            (row w j)
  pub row-delete_token :
      (t : String) (w : W) (j : String)
      → row (sessions.delete_token t w).1 j
        ≡ on_success (sessions.delete_token t w).0 (if str_eq j t then none else row w j) (row w j)
  pub row-create :
      (s : Session) (w : W) (j : String)
      → row (sessions.create s w).1 j
        ≡ on_success
            (sessions.create s w).0.0
            (if str_eq j s.refresh_token then some (sessions.create s w).0.1 else row w j)
            (row w j)
  -- `Create` fills in the time of creation alone.
  pub created :
      (s : Session) (w : W)
      → (sessions.create s w).0.1 ≡ record s { created_at = (sessions.create s w).0.1.created_at }

pub record IsTableApart {W : Type 0} (host : Host W) (echo : Echo W) (row : Rows W) : Type 0 where
  pub new_uuid : (w : W) (j : String) → row (host.new_uuid w).1 j ≡ row w j
  pub now : (w : W) (j : String) → row (host.now w).1 j ≡ row w j
  pub json :
      (status : ℕ) (body : Json) (w : W) (j : String) → row (echo.json status body w).1 j ≡ row w j

-- `issued w t`: some id that was made so far is spelled `t`. A new id is never spelled like one that
-- was made before (uuid.New), and what was made stays made.
pub record IsIssuer {W B : Type 0} (host : Host W) (c : Codec B) (sessions : Sessions W)
    (issued : W → String → Bool) : Type 0 where
  pub fresh :
      (t : String) (w : W) → issued w t ≡ true → str_eq t (c.uuid_text (host.new_uuid w).0) ≡ false
  pub made : (w : W) → issued (host.new_uuid w).1 (c.uuid_text (host.new_uuid w).0) ≡ true
  pub issued-new_uuid :
      (t : String) (w : W) → issued w t ≡ true → issued (host.new_uuid w).1 t ≡ true
  pub issued-now : (t : String) (w : W) → issued w t ≡ true → issued (host.now w).1 t ≡ true
  pub issued-find :
      (k : String) (now : Time) (t : String) (w : W)
      → issued w t ≡ true
      → issued (sessions.find k now w).1 t ≡ true
  pub issued-delete :
      (s : Session) (t : String) (w : W)
      → issued w t ≡ true
      → issued (sessions.delete s w).1 t ≡ true
