-- ===== src/Rest/Hub/Refinement.antt =====
-- The hub against the list of the open sockets (src/internal/transport/rest/message_handler.go).
use go_service_bao_fight.Base.{
  String, ◌≡◌, refl, sym, ap, ◌∙◌, Bool, true, false, ◌&&◌, Option, none, some, List, [], ◌∷◌, ◌++◌,
  append-nil, arith, ◌==◌, length, str_eq, str_eq_iff, str_eq_self, if◌then◌else◌, Bool-cases, inl,
  inr, Option-cases,
}
use go_service_bao_fight.Rest.Hub.{
  Socket, Hub, new_hub, sockets, or_empty, set_clients, connect, without, store, disconnect,
  HubEvent, connected, closed, hub_step, hub_run,
}

-- An open socket and its user.
pub record Session : Type 0 where
  pub user : String
  pub socket : Socket

-- The specification: the open sockets of all users, in the order in which they were opened.
abbrev is_session : String → Socket → Session → Bool
is_session user ws s = str_eq s.user user && s.socket == ws

abbrev close : String → Socket → List Session → List Session
close user ws [] = []
close user ws (s ∷ ss) = if is_session user ws s then ss else s ∷ close user ws ss

abbrev pub open_step : HubEvent → List Session → List Session
open_step (connected user ws) ss = ss ++ record { user = user; socket = ws } ∷ []
open_step (closed user ws) ss = close user ws ss

abbrev pub open_run : List HubEvent → List Session → List Session
open_run [] ss = ss
open_run (e ∷ es) ss = open_run es (open_step e ss)

-- The sockets of one user.
abbrev pub of_user : String → List Session → List Socket
of_user user [] = []
of_user user (s ∷ ss) = if str_eq s.user user then s.socket ∷ of_user user ss else of_user user ss

of_user-append :
    (user : String) (ss ts : List Session)
    → of_user user (ss ++ ts) ≡ of_user user ss ++ of_user user ts
of_user-append user [] ts = refl
of_user-append user (s ∷ ss) ts = elim (Bool-cases (str_eq s.user user)) [
  | inl e ↦ rw e (ap (λ l. s.socket ∷ l) (of_user-append user ss ts))
  | inr e ↦ rw e (of_user-append user ss ts)
]

-- `without`, where a socket that is missing changes nothing.
abbrev cut : Socket → List Socket → List Socket
cut ws [] = []
cut ws (s ∷ ss) = if s == ws then ss else s ∷ cut ws ss

abbrev or_same : Option (List Socket) → List Socket → List Socket
or_same none ss = ss
or_same (some rest) ss = rest

without-cut : (ws : Socket) (ss : List Socket) → or_same (without ws ss) ss ≡ cut ws ss
without-cut ws [] = refl
without-cut ws (s ∷ ss) = elim (Bool-cases (s == ws)) [
  | inl e ↦ rw e refl
  | inr e ↦ rw e (elim (Option-cases (without ws ss)) [
    | inl q ↦ ground (arith, without-cut ws ss)
    | inr (rest, q) ↦ ground (arith, without-cut ws ss)
  ])
]

same_user : (a b : String) → str_eq a b ≡ true → a ≡ b
same_user a b h = (str_eq_iff a b).0 h

str_eq_sym : (a b : String) → str_eq a b ≡ str_eq b a
str_eq_sym a b = ground (arith, str_eq_iff a b, str_eq_iff b a)

-- Closing a socket touches its user alone.
of_user-close_own :
    (user : String) (ws : Socket) (ss : List Session)
    → of_user user (close user ws ss) ≡ cut ws (of_user user ss)
of_user-close_own user ws [] = refl
of_user-close_own user ws (s ∷ ss) = ground (arith, of_user-close_own user ws ss)

of_user-close_other :
    (other user : String) (ws : Socket) (ss : List Session)
    → str_eq user other ≡ false
    → of_user other (close user ws ss) ≡ of_user other ss
of_user-close_other other user ws [] h = refl
of_user-close_other other user ws (s ∷ ss) h =
    ground (arith, of_user-close_other other user ws ss h, same_user s.user user)

-- The hub shows the open sockets.
abbrev Shows : Hub → List Session → Type 0
Shows hub ss = (user : String) → sockets hub user ≡ of_user user ss

sockets-set_clients :
    (user : String) (value : Option (List Socket)) (hub : Hub) (other : String)
    → sockets (set_clients user value hub) other
      ≡ (if str_eq other user then or_empty value else sockets hub other)
sockets-set_clients user value hub other = elim (Bool-cases (str_eq other user)) [
  | inl e ↦ rw e refl
  | inr e ↦ rw e refl
]

of_user-snoc :
    (other user : String) (ws : Socket) (ss : List Session)
    → of_user other (ss ++ record { user = user; socket = ws } ∷ [])
      ≡ (if str_eq other user then of_user user ss ++ ws ∷ [] else of_user other ss)
of_user-snoc other user ws ss = elim (Bool-cases (str_eq other user)) [
  | inl e ↦
      of_user-append other ss _
      ∙ rw (str_eq_sym user other ∙ e)
          (rw e (ap (λ u. of_user u ss ++ ws ∷ []) (same_user other user e)))
  | inr e ↦
      of_user-append other ss _
      ∙ rw (str_eq_sym user other ∙ e) (rw e (append-nil (of_user other ss)))
]

of_user-close :
    (other user : String) (ws : Socket) (ss : List Session)
    → of_user other (close user ws ss)
      ≡ (if str_eq other user then cut ws (of_user user ss) else of_user other ss)
of_user-close other user ws ss = elim (Bool-cases (str_eq other user)) [
  | inl e ↦ rw e (
      ap (λ u. of_user u (close user ws ss)) (same_user other user e)
      ∙ of_user-close_own user ws ss)
  | inr e ↦ rw e (of_user-close_other other user ws ss (str_eq_sym user other ∙ e))
]

-- A slice that is deleted was empty.
abbrev pruned : String → Hub → Hub
pruned user hub = if length (sockets hub user) == 0 then set_clients user none hub else hub

empty_of_length : (ss : List Socket) → (length ss == 0) ≡ true → ss ≡ []
empty_of_length [] h = refl
empty_of_length (s ∷ ss) h = ground arith

sockets-pruned :
    (user : String) (hub : Hub) (other : String)
    → sockets (pruned user hub) other ≡ sockets hub other
sockets-pruned user hub other = elim (Bool-cases (length (sockets hub user) == 0)) [
  | inl e ↦ rw e (
      sockets-set_clients user none hub other ∙ elim (Bool-cases (str_eq other user)) [
        | inl q ↦ rw q (sym (empty_of_length _ e) ∙ ap (sockets hub) (sym (same_user other user q)))
        | inr q ↦ rw q refl
      ])
  | inr e ↦ rw e refl
]

sockets-store :
    (user : String) (ws : Socket) (hub : Hub) (other : String)
    → sockets (store user (without ws (sockets hub user)) (pruned user hub)) other
      ≡ (if str_eq other user then cut ws (sockets hub user) else sockets hub other)
sockets-store user ws hub other =
    let found = without-cut ws (sockets hub user) in
    elim (Option-cases (without ws (sockets hub user))) [
      | inl e ↦
          rw (e, store)
            (sockets-pruned user hub other ∙ elim (Bool-cases (str_eq other user)) [
              | inl q ↦ rw q (ap (sockets hub) (same_user other user q) ∙ rw (e, or_same) at found)
              | inr q ↦ rw q refl
            ])
      | inr (rest, e) ↦
          rw (e, store)
            (sockets-set_clients user (some rest) (pruned user hub) other
              ∙ elim (Bool-cases (str_eq other user)) [
                | inl q ↦ rw q (rw (e, or_same) at found)
                | inr q ↦ rw q (sockets-pruned user hub other)
              ])
    ]

connect-Shows :
    (hub : Hub) (ss : List Session) (user : String) (ws : Socket)
    → Shows hub ss
    → Shows (connect user ws hub) (open_step (connected user ws) ss)
unfolding connect
connect-Shows hub ss user ws h other =
    sockets-set_clients user (some (sockets hub user ++ ws ∷ [])) hub other
    ∙ rw (h user) (rw (h other) (sym (of_user-snoc other user ws ss)))

disconnect-Shows :
    (hub : Hub) (ss : List Session) (user : String) (ws : Socket)
    → Shows hub ss
    → Shows (disconnect user ws hub) (open_step (closed user ws) ss)
unfolding disconnect
disconnect-Shows hub ss user ws h other =
    sockets-store user ws hub other
    ∙ rw (h user) (rw (h other) (sym (of_user-close other user ws ss)))

hub_run-Shows :
    (es : List HubEvent) (hub : Hub) (ss : List Session)
    → Shows hub ss
    → Shows (hub_run es hub) (open_run es ss)
unfolding hub_run hub_step
hub_run-Shows [] hub ss h = h
hub_run-Shows (connected user ws ∷ es) hub ss h =
    hub_run-Shows es (connect user ws hub) (open_step (connected user ws) ss)
      (connect-Shows hub ss user ws h)
hub_run-Shows (closed user ws ∷ es) hub ss h =
    hub_run-Shows es (disconnect user ws hub) (open_step (closed user ws) ss)
      (disconnect-Shows hub ss user ws h)

-- Whatever sockets are opened and closed, by whatever users and in whatever order: at each user the
-- hub holds exactly the sockets that are open, in the order in which they were opened.
pub hub_run-sockets :
    (es : List HubEvent) (user : String)
    → sockets (hub_run es new_hub) user ≡ of_user user (open_run es [])
hub_run-sockets es user = hub_run-Shows es new_hub [] (λ u. refl) user

-- A user who is not in the hub opens a socket and closes it: the key stays, with an empty slice.
closed_key_stays :
    (hub : Hub) (user : String) (ws : Socket)
    → hub.clients user ≡ none
    → (disconnect user ws (connect user ws hub)).clients user ≡ some []
unfolding connect disconnect
closed_key_stays hub user ws h = let yes = str_eq_self user in ground (arith, yes)
