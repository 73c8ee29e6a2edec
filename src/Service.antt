-- ===== src/Service.antt =====
-- src/internal/service: the handlers of the consumer's workers.
pub mod Decoding
pub mod MessageSave
pub mod Reactions
pub mod Registrations
