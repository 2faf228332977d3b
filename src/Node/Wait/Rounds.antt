-- ===== src/Node/Wait/Rounds.antt =====
-- The waits end: the rounds that they have outlast their deadline.
use hogs.Prelude.{
  ℕ, zero, suc, ◌+◌, ◌*◌, ◌≤◌, ◌<◌, String, Bool, not, ltb, ltb→lt, same_bool, ◌==◌, ◌≢◌, arith,
}
use hogs.Node.Steps.{
  Ends, Leaves, weaken, on_lem, observe_lem, advance_lem, leaves_lem, bind_lem, or_else_lem,
}
use hogs.Node.Host.{Host, Server, service_running_state}
use hogs.Node.Wait.{
  WaitError, out_of_rounds, state_pause, readiness_pause, state_rounds, readiness_rounds,
  ask_version, poll_state, wait_for_service_state, poll_readiness, wait_for_readiness, has_version,
}

module _ {W : Type 0} (host : Host W) where
  -- The clock goes on while the host is asked, and by the pause of a sleep.
  pub record Clock : Type 0 where
    pub sleeps : (pause : ℕ) (w : W) → host.time w + pause ≤ host.time (host.sleep pause w)
    pub shows : (unit : String) (w : W) → host.time w ≤ host.time (host.show_unit unit w).1
    pub versions :
        (server : Server) (w : W) → host.time w ≤ host.time (host.game_version server w).1

  pub service_running_state-Leaves :
      (P : W → Type 0) (unit : String)
      → ((w : W) → P w → P (host.show_unit unit w).1)
      → (w : W) → P w
      → Leaves P (service_running_state host unit w)
  unfolding service_running_state
  service_running_state-Leaves P unit keep w h =
      bind_lem _ _ _
        (or_else_lem _ _ _ (leaves_lem (host.show_unit unit w) (keep w h))
          λ e w' k. record { so = k })
        λ values w' k. leaves_lem _ k

  -- An error is not the want of rounds.
  abbrev IsOver : WaitError → W → Type 0
  IsOver e w = e ≢ out_of_rounds

  module _ (clock : Clock) where
    shows_since :
        (unit : String) (t : ℕ) (w : W) → t ≤ host.time w → t ≤ host.time (host.show_unit unit w).1
    shows_since unit t w h = omega (arith, clock.shows unit w)

    since :
        (unit : String) (w : W)
        → Ends
            (λ _ w'. host.time w ≤ host.time w')
            (λ _ _. Unit {0})
            (service_running_state host unit w)
    since unit w =
        weaken (λ _ _ k. k) (λ _ _ _. tt)
          (service_running_state-Leaves (λ w'. host.time w ≤ host.time w') unit
            (shows_since unit (host.time w)) w (omega arith))

    poll_state_total :
        (rounds : ℕ) (unit : String) (running : Bool) (deadline : ℕ) (w : W)
        → 0 < rounds
        → deadline + state_pause ≤ host.time w + state_pause * rounds
        → Ends (λ _ _. Unit {0}) IsOver (poll_state host rounds unit running deadline w)
    unfolding poll_state
    poll_state_total zero unit running deadline w pos h = absurd (omega arith)
    poll_state_total (suc n) unit running deadline w pos h =
        bind_lem _ _ _ (or_else_lem _ _ _ (since unit w) (λ e w' k. record { so = λ q. cc }))
          λ current w' k.
            on_lem (same_bool current running) _ _ _ (λ _. record { so = tt })
              (λ _. observe_lem _ _ _ (
                on_lem (ltb (host.time w') deadline) _ _ _
                  (λ b. advance_lem _ _ _ (
                    poll_state_total n unit running deadline (host.sleep state_pause w')
                      (omega (arith, ltb→lt _ _ b))
                      (omega (arith, ltb→lt _ _ b, clock.sleeps state_pause w'))))
                  (λ _. record { so = λ q. cc })))

    poll_readiness_total :
        (rounds : ℕ) (server : Server) (deadline : ℕ) (w : W)
        → 0 < rounds
        → deadline + readiness_pause < host.time w + readiness_pause * rounds
        → Ends (λ _ _. Unit {0}) IsOver (poll_readiness host rounds server deadline w)
    unfolding poll_readiness ask_version
    poll_readiness_total zero server deadline w pos h = absurd (omega arith)
    poll_readiness_total (suc n) server deadline w pos h =
        bind_lem _ _ _ (or_else_lem _ _ _ (since server.unit w) (λ e w' k. record { so = λ q. cc }))
          λ running w' k.
            bind_lem {P = λ _ v. host.time w ≤ host.time v} _ _ _
              (on_lem running _ _ _ (λ _. record { so = omega (arith, clock.versions server w') })
                (λ _. record { so = λ q. cc }))
              λ version v l. observe_lem _ _ _ (
                on_lem (not (version == "")) _ _ _ (λ _. record { so = tt })
                  (λ _.
                    on_lem (ltb deadline (host.time v)) _ _ _ (λ _. record { so = λ q. cc })
                      (λ b. advance_lem _ _ _ (
                        poll_readiness_total n server deadline (host.sleep readiness_pause v)
                          (ground arith) (ground (arith, clock.sleeps readiness_pause v))))))

    -- On a clock that goes on, a wait for the state of a service and a wait for the readiness of a game
    -- end within their rounds, whatever the service, the game and the wanted state: with success, or
    -- with an error that is not the want of rounds.
    pub wait_for_service_state-wait_for_readiness :
        (server : Server) (running : Bool) (w : W)
        → Ends (λ _ _. Unit {0}) IsOver (wait_for_service_state host server.unit running w)
          × Ends (λ _ _. Unit {0}) IsOver (wait_for_readiness host server w)
    unfolding wait_for_service_state wait_for_readiness
    wait_for_service_state-wait_for_readiness server running w = (
      observe_lem _ _ _
          (poll_state_total state_rounds server.unit running _ w (omega arith) (omega arith)),
      on_lem (has_version host server) _ _ _
          (λ _.
            observe_lem _ _ _
              (poll_readiness_total readiness_rounds server _ w (omega arith) (omega arith)))
          (λ _. record { so = tt }),
    )
