-- ===== src/Worker.antt =====
-- src/internal/worker/kafka_worker.go: the loop of a background worker and the goroutine that reads
-- Kafka for it. The loop is a step function on the event that `select` takes; both goroutines
-- together are a step relation, in which any of them may move.
pub mod Loop
pub mod System
