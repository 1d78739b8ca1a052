-- ===== src/SmtpDriver/Once.antt =====
-- Failover never repeats a message.
use sigillum.Common.{
  Bytes, ℕ, ◌≤◌, Bool, true, ◌&&◌, ◌≡◌, refl, List, [], ◌∷◌, Option, none, some, All, arith,
  if◌then◌else◌,
}
use sigillum.Policy.Types.{Platform}
use sigillum.Gateway.Types.{Endpoint, Sent, delivered, failed}
use sigillum.SmtpDriver.{
  SendViaError, bare, config, delivery, Relay, SmtpConfig, Calls, Run, send_via, is_delivery,
  is_transient, gave_up_with, send_over, send_body,
}
use sigillum.SmtpDriver.Trace.{mails, acceptances, IsSecret, Counts, Tried, send_via-Tried}

abbrev pub accepted_by : Sent → ℕ
accepted_by (delivered r) = 1
accepted_by (failed e) = 0

-- At most one relay was asked to take the message, as many acknowledged it as the result says (a
-- relay whose answer was lost may have taken it all the same), and no password went over a
-- connection that is never encrypted.
abbrev pub IsOnce : Relay → Calls × Sent → Type 0
IsOnce relay (calls, sent) =
    (mails calls ≤ 1) × (acceptances relay calls ≡ accepted_by sent) × All IsSecret calls

module _ (env : Platform) (find_delay : Bytes → Option (ℕ × Bool)) (relay : Relay)
    (cfg : SmtpConfig) (now : ℕ) (from : Bytes) (rcpts : List Bytes) (body id : Bytes) where
  after-IsOnce :
      (run : Run) (transient : Bool) (eps : List Endpoint)
      → Tried relay 0 0 run
      → ((transient' : Bool) (e : SendViaError) (calls : Calls)
          → Counts relay 0 0 calls
          → IsOnce relay (
              send_over env find_delay relay cfg now from rcpts body id transient'
                (some e)
                eps
                calls))
      → IsOnce relay (elim run.1 [
        | none ↦ (run.0, delivered (record { upstream_id = id; accepted_at = now }))
        | some e ↦
            let transient' = transient && is_transient env e in
            let next =
              send_over env find_delay relay cfg now from rcpts body id transient'
                (some e)
                eps
                run.0 in
            if is_delivery env e
            then gave_up_with env find_delay relay cfg now from rcpts body id transient'
                (some e)
                run.0
            else next
      ])
  after-IsOnce (calls, none) transient eps (m, a, s) rest = (omega (arith, m), a, s)
  after-IsOnce (calls, some (delivery f)) transient eps (m, a, s) rest = (omega (arith, m), a, s)
  after-IsOnce (calls, some (bare f)) transient eps h rest = rest _ _ calls h
  after-IsOnce (calls, some (config f)) transient eps h rest = rest _ _ calls h

  send_over-IsOnce :
      (transient : Bool) (last : Option SendViaError) (eps : List Endpoint) (calls : Calls)
      → Counts relay 0 0 calls
      → IsOnce relay
          (send_over env find_delay relay cfg now from rcpts body id transient last eps calls)
  unfolding send_over
  send_over-IsOnce transient last [] calls (m, a, s) = (omega (arith, m), a, s)
  send_over-IsOnce transient last (ep ∷ eps) calls h =
      after-IsOnce (send_via relay cfg from rcpts body ep calls) transient eps
        (send_via-Tried relay cfg from rcpts body ep calls 0 0 h)
        (λ t e c k. send_over-IsOnce t (some e) eps c k)

  -- Whatever the relays answer, `send_body` asks at most one of them to take the message, and as
  -- many have acknowledged it (answered the end of the data without an error) as the result says:
  -- one if it is delivered, none if it failed; and no password goes to an endpoint whose connection
  -- is never encrypted.
  pub send_body-IsOnce : IsOnce relay (send_body env find_delay relay cfg now from rcpts body id)
  unfolding send_body
  send_body-IsOnce = send_over-IsOnce true none cfg.endpoints [] (refl, refl, tt)
