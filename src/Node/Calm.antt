-- ===== src/Node/Calm.antt =====
-- What the questions to systemd and to the game, and the actions on the service, leave as it is.
use hogs.Prelude.{
  ℕ, zero, suc, ◌+◌, String, Bool, true, false, not, [], ◌∷◌, ◌==◌, any, ltb, same_bool, ◌≡◌, refl,
}
use hogs.Node.Steps.{
  ◌>>◌, Leaves, leaves_lem, bind_lem, then_lem, or_else_lem, on_lem, observe_lem, advance_lem,
}
use hogs.Node.Host.{Host, Server, execute_action}
use hogs.Node.Wait.{
  state_rounds, state_timeout, readiness_rounds, readiness_timeout, poll_state,
  wait_for_service_state, poll_readiness, ask_version, has_version, wait_for_readiness,
}
use hogs.Node.Wait.Rounds.{service_running_state-Leaves}
use hogs.Node.Restore.{await_state, restart_original}

module _ {W : Type 0} (host : Host W) (server : Server) where
  -- A property of the world that no question and no pause changes.
  pub record IsCalm (P : W → Type 0) : Type 0 where
    pub shows : (w : W) → P w → P (host.show_unit server.unit w).1
    pub sleeps : (pause : ℕ) (w : W) → P w → P (host.sleep pause w)
    pub versions : (w : W) → P w → P (host.game_version server w).1

  -- One that an action on the service does not change.
  abbrev pub KeepsAction : String → (W → Type 0) → Type 0
  KeepsAction verb P = (w : W) → P w → P (host.systemctl verb server.unit w).1

  module _ {P : W → Type 0} (calm : IsCalm P) where
    pub poll_state-Leaves :
        (rounds : ℕ) (running : Bool) (deadline : ℕ) (w : W)
        → P w
        → Leaves P (poll_state host rounds server.unit running deadline w)
    unfolding poll_state
    poll_state-Leaves zero running deadline w h = record { so = h }
    poll_state-Leaves (suc rounds) running deadline w h =
        bind_lem _ _ _
          (or_else_lem _ _ _ (service_running_state-Leaves host P server.unit calm.shows w h)
            (λ e w' k. record { so = k }))
          λ current w' k.
            on_lem (same_bool current running) _ _ _ (λ _. record { so = k })
              (λ _. observe_lem _ _ _ (
                on_lem (ltb (host.time w') deadline) _ _ _
                  (λ b.
                    advance_lem _ _ _
                      (poll_state-Leaves rounds running deadline _ (calm.sleeps _ w' k)))
                  (λ _. record { so = k })))

    pub poll_readiness-Leaves :
        (rounds deadline : ℕ) (w : W)
        → P w
        → Leaves P (poll_readiness host rounds server deadline w)
    unfolding poll_readiness ask_version
    poll_readiness-Leaves zero deadline w h = record { so = h }
    poll_readiness-Leaves (suc rounds) deadline w h =
        bind_lem _ _ _
          (or_else_lem _ _ _ (service_running_state-Leaves host P server.unit calm.shows w h)
            (λ e w' k. record { so = k }))
          λ running w' k.
            bind_lem {P = λ _. P} _ _ _
              (on_lem running _ _ _ (λ _. record { so = calm.versions w' k })
                (λ _. record { so = k }))
              λ version v l. observe_lem _ _ _ (
                on_lem (not (version == "")) _ _ _ (λ _. record { so = l })
                  (λ _.
                    on_lem (ltb deadline (host.time v)) _ _ _ (λ _. record { so = l })
                      (λ b.
                        advance_lem _ _ _
                          (poll_readiness-Leaves rounds deadline _ (calm.sleeps _ v l)))))

    pub await_state-Leaves :
        (running : Bool) (w : W) → P w → Leaves P (await_state host server running w)
    unfolding await_state wait_for_service_state
    await_state-Leaves running w h =
        or_else_lem _ _ _
          (observe_lem _ _ _
            (poll_state-Leaves state_rounds running (host.time w + state_timeout) w h))
          (λ e w' k. record { so = k })

    pub wait_for_readiness-Leaves : (w : W) → P w → Leaves P (wait_for_readiness host server w)
    unfolding wait_for_readiness
    wait_for_readiness-Leaves w h =
        on_lem (has_version host server) _ _ _
          (λ _.
            observe_lem _ _ _
              (poll_readiness-Leaves readiness_rounds (host.time w + readiness_timeout) w h))
          (λ _. record { so = h })

    pub execute_action-Leaves :
        (verb : String)
        → KeepsAction verb P
        → (w : W) → P w
        → Leaves P (execute_action host server verb w)
    unfolding execute_action
    execute_action-Leaves verb keep w h =
        on_lem (server.unit == "") _ _ _ (λ _. record { so = h })
          (λ _.
            on_lem (any (λ action. verb == action) ("start" ∷ "stop" ∷ "restart" ∷ [])) _ _ _
              (λ _. leaves_lem _ (keep w h)) (λ _. record { so = h }))

    -- `start` followed by the wait, and `stop` likewise.
    pub act_and_wait-Leaves :
        (verb : String) (running : Bool)
        → KeepsAction verb P
        → (w : W) → P w
        → Leaves P ((execute_action host server verb >> await_state host server running) w)
    act_and_wait-Leaves verb running keep w h =
        then_lem _ _ _ (execute_action-Leaves verb keep w h)
          λ _ w' k. await_state-Leaves running w' k

    -- The restart that a failure makes; it does nothing for a service that did not run.
    pub restart_original-Leaves :
        (was_running : Bool)
        → (was_running ≡ true → KeepsAction "start" P)
        → (w : W) → P w
        → Leaves P (restart_original host server was_running was_running w)
    unfolding restart_original
    restart_original-Leaves true keep w h =
        on_lem true _ _ _ (λ _. act_and_wait-Leaves "start" true (keep refl) w h)
          (λ _. record { so = h })
    restart_original-Leaves false keep w h =
        on_lem false _ _ _ (λ e. absurd (cc)) (λ _. record { so = h })
