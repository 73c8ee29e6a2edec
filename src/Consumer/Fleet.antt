-- ===== src/Consumer/Fleet.antt =====
-- All the workers of a consumer at once (src/cmd/app/consumer/main.go, src/internal/worker/kafka_worker.go): each
-- has its own channel and batch, and all share the outer world, which other programs change too.
pub mod Accounts
use go_service_bao_fight.Base.{◌≡◌, List, [], ◌∷◌, ◌++◌}
use go_service_bao_fight.Worker.Loop.{Handler}
use go_service_bao_fight.Worker.System.{System, Move, initial}
use go_service_bao_fight.Consumer.{Task, batch_size, Launch}

-- A goroutine and the state of its `Run`.
pub record Member (W B : Type 0) : Type 0 where
  pub launch : Launch
  pub system : System W B

pub record Fleet (W B : Type 0) : Type 0 where
  pub world : W
  pub members : List (Member W B)

-- A worker as it sees the world now.
abbrev pub seeing : {W B : Type 0} → W → System W B → System W B
seeing w s = record s { loop = record s.loop { world = w } }

-- `handlers` gives the `Process` of each handler.
module _ {W B : Type 0} (handlers : Task → Handler W B) where
  -- One worker makes a move on the shared world, or something else changes the world.
  pub data Act (f g : Fleet W B) : Type 0 where
    move :
        (before : List (Member W B)) (m : Member W B) (after : List (Member W B)) (u : System W B)
        → f.members ≡ before ++ m ∷ after
        → Move (handlers m.launch.start.handler) batch_size (seeing f.world m.system) u
        → g ≡ record { world = u.loop.world; members = before ++ record m { system = u } ∷ after }
        → Act f g
    elsewhere : (w : W) → g ≡ record f { world = w } → Act f g

  abbrev pub begin : W → List Launch → List (Member W B)
  begin w [] = []
  begin w (l ∷ ls) =
      record { launch = l; system = initial (handlers l.start.handler) batch_size w } ∷ begin w ls

  -- What a fleet of the given goroutines comes to, in any order of their moves.
  pub data Sails (w : W) (ls : List Launch) : Fleet W B → Type 0 where
    moored : Sails w ls (record { world = w; members = begin w ls })
    onward : {f g : Fleet W B} → Sails w ls f → Act f g → Sails w ls g
