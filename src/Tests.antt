-- ===== src/Tests.antt =====
-- The theorems at concrete inputs, in a world that is kept in memory (`World`).
mod World
mod Worker
mod Service
mod Rest
mod Accounts
mod Rooms
mod Shelf
mod Pages
mod Programs
mod Fleet
mod Feeds
mod Sockets
