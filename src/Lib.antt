-- ===== src/Lib.antt =====
-- A verification library for the backend of bao-fight: an API that writes to PostgreSQL, Redis and
-- Kafka, and a consumer that reads Kafka in batches.
--
-- The parts and how they interact. The API (src/api/router/router.go, src/internal/transport/rest)
-- registers and logs in users, keeps their sessions, stores chat messages and publishes them to
-- Kafka, and holds the web sockets of the users in a hub, to which two watchers of Kafka write. The
-- consumer (src/cmd/app/consumer/main.go) starts workers (src/internal/worker/kafka_worker.go): each
-- reads one topic and hands batches to a handler (src/internal/service), which saves messages or
-- saves reactions and makes chats of mutual likes. Both programs (src/cmd/app) read their settings
-- from the environment (src/internal/config) and reach the database (src/internal/database) first.
--
-- Which file models what:
--   Base            shared names, lists, tests; Base/Json is encoding/json, Base/Texts the package
--                   strings, Base/Int `strconv.Atoi`, and Base/Int/Decimal `%d`
--   Models          the rows of src/internal/models; Topics is src/internal/infrastructure/kafka_topics;
--                   Codec is json.Marshal and json.Unmarshal at Message and Reaction
--   Effects         what a handler passes along: the outer world and a history of its calls; a
--                   handler of the program is a function from an environment to its result and
--                   the environment after it
--   Outside         Redis, gorm, uuid and the clock: records of functions of the outer world
--   Worker/Loop     `Run` (`step`, `run`: one case of the select per event) and `flush`
--   Worker/System   the reader's goroutine and the loop, as a step relation
--   Service         MessageSave: `MessageSaveHandler.Process`; Reactions: `ReactionHandler` with
--                   `checkMatch` (`check_match`, `on_like`, `on_match`) and `sendWSNotification`;
--                   Registrations: `UserRegisterHandler`
--   Rest/Auth       `getSenderID`, and how every handler begins (`with_sender`)
--   Rest/Messages   `SendMessage`; Rest/Sessions `createSession`, `Refresh`, `Logout`;
--                   Rest/Accounts `LoginUser`, `RegisterUser`; Rest/ReactionApi `SetReaction`;
--                   Rest/Chats `GetChatParticipants`, `JoinChat`; Rest/History `GetChatHistory`;
--                   Rest/Inbox `GetChats`; Rest/Discovery `GetDiscovery`; Rest/Fans
--                   `GetLikingProfiles`; Rest/Upload `GetUploadURL`; Rest/Photos `ConfirmUpload`;
--                   Rest/Profiles `GetProfile`, `ChangeProfile`, `SearchUser`
--   Rest/Hub        `WSHub`; Serving: `HandleWS`; Watchers: `StartNotificationWatcher`,
--                   `StartChatWatcher`
--   Api             `NewRouter` and the flags, and `Server.Run` (src/server/server.go)
--   Config          `getEnv`, `getEnvAsInt`, `NewConfig`, `GetDSN`, `GetMigrationDSN`,
--                   `RunMigrations`, `NewConnection`
--   Program         a `main` as a function from a process to how it ended and the process after
--                   it, where `Fatal` ends it; Producer and Consumer: the two `main`
--   Consumer/Fleet  all goroutines of a consumer on one outer world, as a step relation
--   Pipeline        theorems that cross the border between API and consumer
--   Tests           a world in memory, and the theorems at concrete inputs
--
-- Conventions. A uuid is a number and an instant is a number of nanoseconds. A gorm call that the
-- code makes is a field of a record, with what the code relies on as a record of laws beside it
-- (`IsSessionTable`, `IsQueue`, `IsKeyed`, ...); each of these holds of one of the worlds
-- of Tests. Logging is left out. Loops run over the list of what they are given, and the loop that
-- waits for S3 over its ten rounds; only `%d` has fuel, one more than the number itself, and a number
-- above 0 has at most as many digits as its value. A run of a worker is over the list of the events
-- that come. A handler of the loop is a function that returns: the panic of the reaction handler is
-- a value of its own (`Processed`) and is not joined to the loop. Widths of integers matter where a
-- text is read: 64 bits for the sequence number and for `strconv.Atoi`.
--
-- Not modelled: `LoadEnvironment`, which no live code calls, an error of echo's `Start`, which is only
-- logged, the commented-out programs, and what is not Go (migrations, nginx, charts).
pub mod Base
pub mod Models
pub mod Effects
pub mod Outside
pub mod Config
pub mod Program
pub mod Producer
pub mod Worker
pub mod Service
pub mod Rest
pub mod Api
pub mod Consumer
pub mod Pipeline
pub mod Tests
