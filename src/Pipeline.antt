-- ===== src/Pipeline.antt =====
-- The way of a chat message: `SendMessage` (src/internal/transport/rest/message_handler.go) inserts the
-- row and publishes it; the worker `message-saver-v2` (src/cmd/app/consumer/main.go) reads the topic
-- and hands its batches to `MessageSaveHandler` (src/internal/service/message_service.go), which inserts
-- the row again.
pub mod Notices
use mathlib.Core.List.{Memᴰ}
use go_service_bao_fight.Base.{ℕ, ◌^◌, ◌<◌, ◌≡◌, refl, Bool, true, some, List, [], ◌∷◌, ◌++◌}
use go_service_bao_fight.Effects.{GoError}
use go_service_bao_fight.Models.{Uuid, Message}
use go_service_bao_fight.Models.Codec.{Codec, IsFaithful, decode_message, encode_message}
use go_service_bao_fight.Models.RoundTrip.{decode-encode_message}
use go_service_bao_fight.Worker.Loop.{Event, received, running, Loop, run}
use go_service_bao_fight.Worker.Loop.Conservation.{handed}
use go_service_bao_fight.Worker.Loop.Stuck.{IsPoison, run_stuck_from}
use go_service_bao_fight.Service.Decoding.{mem-filter_map}
use go_service_bao_fight.Service.MessageSave.{CreateInBatches, process, process_lem, insert_all}

-- The primary key of the table: `has w u` says that the row `u` is there. An insert that holds the
-- key of such a row fails, and no insert removes a row.
pub record IsKeyed {W : Type 0} (batches : CreateInBatches W Message) (has : W → Uuid → Bool)
    : Type 0 where
  pub duplicate :
      (ms : List Message) (n : ℕ) (m : Message) (w : W)
      → Memᴰ m ms
      → has w m.id ≡ true
      → (e : GoError) × ((batches ms n w).0 ≡ some e)
  pub kept :
      (ms : List Message) (n : ℕ) (u : Uuid) (w : W)
      → has w u ≡ true
      → has (batches ms n w).1 u ≡ true

mem-append_left {ℓ} :
    {A : Type ℓ} {a : A} {xs : List A} (ys : List A) → Memᴰ a xs → Memᴰ a (xs ++ ys)
mem-append_left ys (Memᴰ.head p) = Memᴰ.head p
mem-append_left ys (Memᴰ.tail m) = Memᴰ.tail (mem-append_left ys m)

mem-append_last {ℓ} : {A : Type ℓ} (a : A) (xs : List A) → Memᴰ a (xs ++ a ∷ [])
mem-append_last a [] = Memᴰ.head refl
mem-append_last a (x ∷ xs) = Memᴰ.tail (mem-append_last a xs)

module _ {W B : Type 0} (c : Codec B) (batches : CreateInBatches W Message) (has : W → Uuid → Bool)
    (k : IsKeyed batches has) where
  -- The batch holds a message that the table has already.
  abbrev HasStored : W → List B → Type 0
  HasStored w bs =
      (d : B) × (m : Message) × Memᴰ d bs × (decode_message c d ≡ some m) × (has w m.id ≡ true)

  insert_all_refused :
      (ms : List Message) (m : Message) (w : W)
      → Memᴰ m ms
      → has w m.id ≡ true
      → (e : GoError) × ((insert_all c batches ms w).0 ≡ some e)
  insert_all_refused [] m w i h = elim i [ ]
  insert_all_refused (x ∷ xs) m w i h = k.duplicate (x ∷ xs) 100 m w i h

  insert_all_kept :
      (ms : List Message) (u : Uuid) (w : W)
      → has w u ≡ true
      → has (insert_all c batches ms w).1 u ≡ true
  insert_all_kept [] u w h = h
  insert_all_kept (x ∷ xs) u w h = k.kept (x ∷ xs) 100 u w h

  process-IsPoison : IsPoison (process c batches) HasStored
  process-IsPoison = record {
    refused = λ bs w (d, m, i, e, h).
        rw (process_lem c batches bs w)
          (insert_all_refused _ m w (mem-filter_map (decode_message c) i e) h);
    lasting = λ bs w (d, m, i, e, h).
        (d, m, i, e, rw (process_lem c batches bs w) (insert_all_kept _ m.id w h));
    growing = λ bs x w (d, m, i, e, h). (d, m, mem-append_left (x ∷ []) i, e, h);
  }

-- A message whose row is in the table, as `SendMessage` leaves it before it publishes the message,
-- stops the worker that saves messages: from the moment a running loop receives it, whatever its
-- batch size and whatever comes after, no batch is accepted any more. The sequence number is of 64
-- bits, and the codec reads back what it writes.
pub sent_message_blocks :
    {W B : Type 0} (c : Codec B) (batches : CreateInBatches W Message) (has : W → Uuid → Bool)
    (size : ℕ) (m : Message) (es : List (Event B)) (s : Loop W B)
    → IsFaithful c
    → IsKeyed batches has
    → m.sequence_number < 2 ^ 64
    → has s.world m.id ≡ true
    → s.status ≡ running
    → handed (run (process c batches) size (received (encode_message c m) ∷ es) s).calls
      ≡ handed s.calls
sent_message_blocks c batches has size m es s f k bits stored going =
    run_stuck_from (process c batches) (HasStored c batches has k) size (encode_message c m) es s
      (process-IsPoison c batches has k) going
      (encode_message c m, m, mem-append_last _ s.batch, decode-encode_message c m f bits, stored)
