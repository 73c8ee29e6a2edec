-- ===== src/Rest/Hub/Serving.antt =====
-- `HandleWS` (src/internal/transport/rest/message_handler.go): one web socket, from its upgrade to its
-- end, while other handlers open and close theirs.
use go_service_bao_fight.Base.{
  String, ◌≡◌, refl, ap, ◌∙◌, sym, ◌⊎◌, inl, inr, Option, none, some, List, [], ◌∷◌, ◌++◌,
}
use go_service_bao_fight.Effects.{GoError, Env, M, pure, ◌>>=◌, ◌>>◌, call, Echo}
use go_service_bao_fight.Rest.Auth.{UserValue, named_user, with_sender}
use go_service_bao_fight.Rest.Auth.Outcomes.{with_sender_named}
use go_service_bao_fight.Rest.Hub.{
  Socket, Hub, new_hub, sockets, connect, disconnect, HubEvent, connected, closed, hub_step,
  hub_run,
}
use go_service_bao_fight.Rest.Hub.Refinement.{of_user, open_run, hub_run-sockets}

-- The hub of the process and the world outside.
pub record Shared (W : Type 0) : Type 0 where
  pub hub : Hub
  pub outer : W

-- gorilla/websocket: `Upgrade`, `ReadMessage` until it returns an error, and `Close`.
pub record WebSockets (W : Type 0) : Type 0 where
  pub upgrade : W → (GoError ⊎ Socket) × W
  pub read_until_closed : Socket → W → W
  pub close : Socket → W → W

module _ {W B : Type 0} where
  abbrev change : (Hub → Hub) → M (Shared W) B (Unit {0})
  change f = call (λ s. (tt, record s { hub = f s.hub }))

  abbrev outside : {A : Type 0} → (W → A × W) → M (Shared W) B A
  outside f = call (λ s. let (a, w) = f s.outer in (a, record s { outer = w }))

  -- `others` is what the other handlers do to the hub while this one reads its socket.
  abbrev pub hold :
      WebSockets W → List HubEvent → String → GoError ⊎ Socket → M (Shared W) B (Option GoError)
  hold net others user (inl e) = pure (some e)
  hold net others user (inr ws) = do
    change (connect user ws)
    outside (λ w. (tt, net.read_until_closed ws w))
    change (hub_run others)
    change (disconnect user ws)
    outside (λ w. (tt, net.close ws w))
    pure none

  unfoldable pub ws_as : WebSockets W → List HubEvent → String → M (Shared W) B (Option GoError)
  ws_as net others user = outside net.upgrade >>= hold net others user

  unfoldable pub handle_ws :
      Echo (Shared W) → WebSockets W → List HubEvent → UserValue → M (Shared W) B (Option GoError)
  handle_ws echo net others value = with_sender echo value (ws_as net others)

hub_run-append :
    (es fs : List HubEvent) (hub : Hub) → hub_run (es ++ fs) hub ≡ hub_run fs (hub_run es hub)
unfolding hub_run
hub_run-append [] fs hub = refl
hub_run-append (e ∷ es) fs hub = hub_run-append es fs (hub_step e hub)

-- The hub after a handler that opens its socket, waits and closes it.
hub_run-held :
    (es others : List HubEvent) (user : String) (ws : Socket)
    → hub_run (es ++ (connected user ws ∷ (others ++ closed user ws ∷ []))) new_hub
      ≡ disconnect user ws (hub_run others (connect user ws (hub_run es new_hub)))
unfolding hub_run hub_step
hub_run-held es others user ws =
    hub_run-append es (connected user ws ∷ (others ++ closed user ws ∷ [])) new_hub
    ∙ hub_run-append others (closed user ws ∷ []) (connect user ws (hub_run es new_hub))

-- What a call has come to: the error of the upgrade, with the hub as it was; or no error, and at each
-- user the hub holds exactly the sockets that are open after this one was opened, the others moved,
-- and this one was closed.
abbrev pub IsHeld :
    {W B : Type 0}
    → List HubEvent
    → List HubEvent
    → String
    → Env (Shared W) B
    → Option GoError × Env (Shared W) B
    → Type 0
IsHeld es others user before (err, after) =
    (after.log ≡ before.log)
    × (((e : GoError) × (err ≡ some e) × (after.world.hub ≡ before.world.hub))
        ⊎ ((ws : Socket) × (err ≡ none)
            × ((v : String)
                → sockets after.world.hub v
                  ≡ of_user v
                      (open_run (es ++ (connected user ws ∷ (others ++ closed user ws ∷ []))) []))))

hold-IsHeld :
    {W B : Type 0} (net : WebSockets W) (es others : List HubEvent) (user : String)
    (r : GoError ⊎ Socket) (env : Env (Shared W) B)
    → env.world.hub ≡ hub_run es new_hub
    → IsHeld es others user env (hold net others user r env)
hold-IsHeld net es others user (inl e) env h = (refl, inl (e, refl, refl))
hold-IsHeld net es others user (inr ws) env h = (
  refl,
  inr (
    ws,
    refl,
    λ v.
        ap (λ hub. sockets (disconnect user ws (hub_run others (connect user ws hub))) v) h
        ∙ ap (λ hub. sockets hub v) (sym (hub_run-held es others user ws))
        ∙ hub_run-sockets (es ++ (connected user ws ∷ (others ++ closed user ws ∷ []))) v,
  ),
)

-- A call of `HandleWS` for a user whom the token names, at a hub that any openings and closings have
-- left, while the other handlers open and close sockets in any order. If the upgrade fails, its error
-- is returned and the hub is as it was; else there is no error, and at the end the hub holds, at each
-- user, exactly the sockets that are open then, in the order in which they were opened.
pub handle_ws-IsHeld :
    {W B : Type 0} (echo : Echo (Shared W)) (net : WebSockets W) (es others : List HubEvent)
    (value : UserValue) (user : String) (env : Env (Shared W) B)
    → env.world.hub ≡ hub_run es new_hub
    → named_user value ≡ some user
    → IsHeld es others user env (handle_ws echo net others value env)
unfolding handle_ws ws_as
handle_ws-IsHeld echo net es others value user env h named =
    rw (with_sender_named echo (ws_as net others) value user env named)
      (hold-IsHeld net es others user (net.upgrade env.world.outer).0 (outside net.upgrade env).1 h)
