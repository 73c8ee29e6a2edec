-- ===== src/Worker/System.antt =====
-- The two goroutines of `kafkaWorker.Run` (src/internal/worker/kafka_worker.go): the reader takes
-- messages from Kafka and sends each over an unbuffered channel, and the loop selects. Any of them
-- may move at any time; a send and its receive are one step. kafka-go commits the offset of a
-- message when `ReadMessage` returns it.
pub mod Conservation
use go_service_bao_fight.Base.{ℕ, ◌≡◌, String, List, [], ◌∷◌, ◌++◌}
use go_service_bao_fight.Worker.Loop.{
  Handler, cancelled, received, ticked, read_failed, running, Loop, step, start,
}

-- The reader calls `ReadMessage`, blocks on `msgChan <- m`, blocks on `errChan <- err`, or has
-- ended.
pub data Reader (B : Type 0) : Type 0 where
  reading : Reader B
  holding : B → Reader B
  failing : String → Reader B
  ended : Reader B

-- `fetched` is history: what `ReadMessage` has returned, in order.
pub record System (W B : Type 0) : Type 0 where
  pub loop : Loop W B
  pub reader : Reader B
  pub fetched : List B

abbrev pub in_flight : {B : Type 0} → Reader B → List B
in_flight (holding m) = m ∷ []
in_flight reading = []
in_flight (failing e) = []
in_flight ended = []

module _ {W B : Type 0} (process : Handler W B) (size : ℕ) where
  pub data Move (s u : System W B) : Type 0 where
    fetch :
        (m : B)
        → s.reader ≡ reading
        → u ≡ record s { reader = holding m; fetched = s.fetched ++ m ∷ [] }
        → Move s u
    fetch_error : (e : String) → s.reader ≡ reading → u ≡ record s { reader = failing e } → Move s u
    send :
        (m : B)
        → s.reader ≡ holding m
        → s.loop.status ≡ running
        → u ≡ record s { reader = reading; loop = step process size (received m) s.loop }
        → Move s u
    send_error :
        (e : String)
        → s.reader ≡ failing e
        → s.loop.status ≡ running
        → u ≡ record s { reader = ended; loop = step process size (read_failed e) s.loop }
        → Move s u
    tick :
        s.loop.status ≡ running → u ≡ record s { loop = step process size ticked s.loop } → Move s u
    cancel :
        s.loop.status ≡ running
        → u ≡ record s { loop = step process size cancelled s.loop }
        → Move s u

  abbrev pub initial : W → System W B
  initial w = record { loop = start w; reader = reading; fetched = [] }

  pub data Reach (w : W) : System W B → Type 0 where
    here : Reach w (initial w)
    next : {s u : System W B} → Reach w s → Move s u → Reach w u
