-- ===== src/Rest.antt =====
-- src/internal/transport/rest: the HTTP handlers of the producer.
pub mod Accounts
pub mod Auth
pub mod Chats
pub mod History
pub mod Discovery
pub mod Photos
pub mod Profiles
pub mod Hub
pub mod Inbox
pub mod Upload
pub mod Fans
pub mod Messages
pub mod Sessions
pub mod ReactionApi
