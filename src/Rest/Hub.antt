-- ===== src/Rest/Hub.antt =====
-- The sockets of the users: `WSHub` (src/internal/transport/rest/handler.go), `HandleWS`
-- (message_handler.go) and the watchers that write to them (reaction_handler.go, chat_handler.go).
-- A socket is known by a number.
pub mod Refinement
pub mod Watchers
pub mod Serving
use go_service_bao_fight.Base.{
  ℕ, String, Bool, Option, none, some, List, [], ◌∷◌, ◌++◌, ◌==◌, length, str_eq, if◌then◌else◌,
}

abbrev pub Socket : Type 0
Socket = ℕ

-- `Clients` is a map of Go: a key may be missing, or hold an empty slice. `readers` are the read
-- locks of `Mu`; the calls that hold the write lock are one step each.
pub record Hub : Type 0 where
  pub clients : String → Option (List Socket)
  pub readers : ℕ

-- `NewHandler` makes an empty hub.
abbrev pub new_hub : Hub
new_hub = record { clients = λ user. none; readers = 0 }

-- `h.hub.Clients[user]`: a missing key reads as an empty slice.
abbrev pub or_empty : Option (List Socket) → List Socket
or_empty none = []
or_empty (some s) = s

abbrev pub sockets : Hub → String → List Socket
sockets hub user = or_empty (hub.clients user)

abbrev pub set_clients : String → Option (List Socket) → Hub → Hub
set_clients user value hub = record hub {
  clients = λ u. if str_eq u user then value else hub.clients u;
}

-- The socket is registered.
unfoldable pub connect : String → Socket → Hub → Hub
connect user ws hub = set_clients user (some (sockets hub user ++ ws ∷ [])) hub

-- The loop that looks for the socket: the slice without its first occurrence, if there is one.
abbrev pub without : Socket → List Socket → Option (List Socket)
without ws [] = none
without ws (s ∷ ss) =
    if s == ws then some ss else elim (without ws ss) [ none ↦ none | some rest ↦ some (s ∷ rest) ]

abbrev pub store : String → Option (List Socket) → Hub → Hub
store user none hub = hub
store user (some rest) hub = set_clients user (some rest) hub

-- What `HandleWS` defers: the key is deleted if the slice is empty, and the socket is cut out.
unfoldable pub disconnect : String → Socket → Hub → Hub
disconnect user ws hub =
    let connections = sockets hub user in
    store user (without ws connections)
      (if length connections == 0 then set_clients user none hub else hub)

-- The two moments of `HandleWS` at which it changes the hub.
pub data HubEvent : Type 0 where
  connected : String → Socket → HubEvent
  closed : String → Socket → HubEvent

unfoldable pub hub_step : HubEvent → Hub → Hub
hub_step (connected user ws) hub = connect user ws hub
hub_step (closed user ws) hub = disconnect user ws hub

-- The steps of all handlers that run, in the order in which they take the lock.
unfoldable pub hub_run : List HubEvent → Hub → Hub
hub_run [] hub = hub
hub_run (e ∷ es) hub = hub_run es (hub_step e hub)
