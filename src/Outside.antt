-- ===== src/Outside.antt =====
-- The libraries that the program calls, as records of the calls that it makes: each call is a
-- function of the outer world `W`. What a theorem needs of them is a record of laws beside it.
use go_service_bao_fight.Base.{ℕ, String, Bool, Option, none, some}
use go_service_bao_fight.Effects.{GoError, Create, M, pure, ◌>>=◌, ◌>>◌, call}
use go_service_bao_fight.Models.{Uuid, Time, Chat, ChatMember}

-- google/uuid's `New` and the clock.
pub record Host (W : Type 0) : Type 0 where
  pub new_uuid : W → Uuid × W
  pub now : W → Time × W

-- go-redis, at the commands whose reply the program reads or drops; a set command that fails
-- changes nothing, and `s_is_member` is false on an error, as the program drops the error.
pub record Redis (W : Type 0) : Type 0 where
  pub s_add : String → String → W → W
  pub s_rem : String → String → W → W
  pub s_is_member : String → String → W → Bool × W
  pub z_add : String → ℕ → Uuid → W → W

-- gorm's `Transaction`: it begins, runs the function, and commits if that returned nil and rolls
-- back if not.
pub record Transactions (W : Type 0) : Type 0 where
  pub begin : W → W
  pub commit : W → Option GoError × W
  pub rollback : W → W

-- The tables of chats and their members. `find_dialog` is the raw query for a chat that both users
-- are in; it scans nothing, and leaves the nil uuid, if there is none.
pub record Chats (W : Type 0) : Type 0 where
  pub find_dialog : Uuid → Uuid → W → Uuid × W
  pub create_chat : Create W Chat
  pub create_member : Create W ChatMember
  pub count_members : Uuid → Uuid → W → ℕ × W

-- `h.db.Transaction(body)`, where the caller drops its error.
abbrev pub transaction : {W B : Type 0} → Transactions W → M W B (Option GoError) → M W B (Unit {0})
transaction t body = do
  call (λ w. (tt, t.begin w))
  err ← body
  elim err [ some e ↦ call (λ w. (tt, t.rollback w)) | none ↦ do _ ← call t.commit; pure tt ]
