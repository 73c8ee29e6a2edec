-- ===== src/Service/MessageSave.antt =====
-- src/internal/service/message_service.go: the handler of the worker that saves chat messages.
use go_service_bao_fight.Base.{
  ℕ, ◌≡◌, refl, Option, none, List, [], ◌∷◌, filter_map, ltb, length, arith, if◌then◌else◌,
}
use go_service_bao_fight.Effects.{GoError}
use go_service_bao_fight.Models.{Message}
use go_service_bao_fight.Models.Codec.{Codec, decode_message}
use go_service_bao_fight.Worker.Loop.{Handler}
use go_service_bao_fight.Service.Decoding.{decode_loop, decode_loop_lem}

-- gorm's `CreateInBatches(rows, size)`.
abbrev pub CreateInBatches : Type 0 → Type 0 → Type 0
CreateInBatches W R = List R → ℕ → W → Option GoError × W

module _ {W B : Type 0} (c : Codec B) (create : CreateInBatches W Message) where
  -- `MessageSaveHandler.Process`
  unfoldable pub process : Handler W B
  unfolding decode_loop
  process batch w =
      let msgs = decode_loop (decode_message c) batch [] in
      if ltb 0 (length msgs) then create msgs 100 w else (none, w)

  -- The rows that a call writes: none at all, or all in one call.
  abbrev pub insert_all : List Message → W → Option GoError × W
  insert_all [] w = (none, w)
  insert_all (m ∷ ms) w = create (m ∷ ms) 100 w

  by_messages :
      (ms : List Message) (w : W)
      → (if ltb 0 (length ms) then create ms 100 w else (none, w)) ≡ insert_all ms w
  by_messages [] w = refl
  by_messages (m ∷ ms) w = ground arith

  -- Whatever the batch holds, the messages that parse go into the database in one call, in their
  -- order, and the result is that of the call; the others are dropped. With none that parses the
  -- database is not called and there is no error.
  pub process_lem :
      (batch : List B) (w : W)
      → process batch w ≡ insert_all (filter_map (decode_message c) batch) w
  unfolding process
  process_lem batch w = rw decode_loop_lem (by_messages _ w)
