-- ===== src/SmtpDriver/Trace.antt =====
-- What the parts of a conversation add to the calls.
use sigillum.Common.{
  Bytes, ℕ, ◌+◌, Bool, true, false, not, ◌≡◌, refl, inl, inr, List, [], ◌∷◌, ◌++◌, Option, none,
  some, All, arith, bytes_eq, codes, Bool-cases, Option-cases,
}
use sigillum.Gateway.Types.{Endpoint}
use sigillum.Rest.Checks.Sound.{All-append}
use sigillum.SmtpDriver.{
  Failure, SendViaError, bare, config, delivery, Call, dial, banner, hello, starttls, auth,
  data_command, write, close, mail_from, rcpt_to, Relay, SmtpConfig, Calls, Run, wants_auth,
  known_mechanism, ◌and_on◌, wrapped, ask, start_tls, log_in, recipients, handshake, deliver,
  send_via,
}

abbrev mail_one : Call → ℕ
mail_one (mail_from a) = 1
mail_one (rcpt_to a) = 0
mail_one dial = 0
mail_one banner = 0
mail_one hello = 0
mail_one starttls = 0
mail_one auth = 0
mail_one data_command = 0
mail_one (write b) = 0
mail_one close = 0

abbrev fine_one : Option Failure → ℕ
fine_one none = 1
fine_one (some f) = 0

-- How often a message was handed to a relay (MAIL).
abbrev pub mails : Calls → ℕ
mails [] = 0
mails ((ep, c) ∷ calls) = mail_one c + mails calls

module _ (relay : Relay) where
  abbrev close_one : Endpoint → Call → ℕ
  close_one ep close = fine_one (relay.answer ep close)
  close_one ep (mail_from a) = 0
  close_one ep (rcpt_to a) = 0
  close_one ep dial = 0
  close_one ep banner = 0
  close_one ep hello = 0
  close_one ep starttls = 0
  close_one ep auth = 0
  close_one ep data_command = 0
  close_one ep (write b) = 0

  -- How often a relay acknowledged a message: it answered the end of the data without an error.
  abbrev pub acceptances : Calls → ℕ
  acceptances [] = 0
  acceptances ((ep, c) ∷ calls) = close_one ep c + acceptances calls

-- No password over a connection that is never encrypted.
abbrev pub IsSecret : Endpoint × Call → Type 0
IsSecret (ep, auth) = bytes_eq ep.tls (codes "none") ≡ false
IsSecret (ep, mail_from a) = Unit {0}
IsSecret (ep, rcpt_to a) = Unit {0}
IsSecret (ep, dial) = Unit {0}
IsSecret (ep, banner) = Unit {0}
IsSecret (ep, hello) = Unit {0}
IsSecret (ep, starttls) = Unit {0}
IsSecret (ep, data_command) = Unit {0}
IsSecret (ep, write b) = Unit {0}
IsSecret (ep, close) = Unit {0}

mails-append : (xs ys : Calls) → mails (xs ++ ys) ≡ mails xs + mails ys
mails-append [] ys = omega arith
mails-append ((ep, c) ∷ xs) ys = omega (arith, mails-append xs ys)

-- The errors of a run are of the kind that `d` says.
abbrev Errs : (Bool → Type 0) → Option SendViaError → Type 0
Errs E none = Unit {0}
Errs E (some (bare f)) = E false
Errs E (some (config f)) = E false
Errs E (some (delivery f)) = E true

abbrev Ends : (Calls → Type 0) → (Bool → Type 0) → Run → Type 0
Ends P E (calls, e) = P calls × Errs E e

and_on-Ends :
    (P Q : Calls → Type 0) (E : Bool → Type 0) (run : Run) (next : Calls → Run)
    → Ends P E run
    → ((calls : Calls) → P calls → Q calls)
    → ((calls : Calls) → P calls → Ends Q E (next calls))
    → Ends Q E (run and_on next)
and_on-Ends P Q E (calls, none) next (p, e) weaken step = step calls p
and_on-Ends P Q E (calls, some (bare f)) next (p, e) weaken step = (weaken calls p, e)
and_on-Ends P Q E (calls, some (config f)) next (p, e) weaken step = (weaken calls p, e)
and_on-Ends P Q E (calls, some (delivery f)) next (p, e) weaken step = (weaken calls p, e)

module _ (relay : Relay) where
  acceptances-append :
      (xs ys : Calls) → acceptances relay (xs ++ ys) ≡ acceptances relay xs + acceptances relay ys
  acceptances-append [] ys = omega arith
  acceptances-append ((ep, c) ∷ xs) ys = omega (arith, acceptances-append xs ys)

  -- So many MAILs and acceptances, and every password is secret.
  abbrev pub Counts : ℕ → ℕ → Calls → Type 0
  Counts m a calls = (mails calls ≡ m) × (acceptances relay calls ≡ a) × All IsSecret calls

  Counts-call :
      (m a : ℕ) (calls : Calls) (ep : Endpoint) (c : Call)
      → IsSecret (ep, c)
      → Counts m a calls
      → Counts (m + mail_one c) (a + close_one relay ep c) (calls ++ (ep, c) ∷ [])
  Counts-call m a calls ep c s (e, f, h) = (
    omega (arith, mails-append calls ((ep, c) ∷ [])),
    omega (arith, acceptances-append calls ((ep, c) ∷ [])),
    All-append IsSecret calls ((ep, c) ∷ []) h (s, tt),
  )

  abbrev IsQuiet : Call → Type 0
  IsQuiet c = (mail_one c ≡ 0) × ((ep : Endpoint) → close_one relay ep c ≡ 0)

  Errs-wrapped-bare : (o : Option Failure) → Errs (λ b. b ≡ false) (wrapped relay bare o)
  Errs-wrapped-bare none = tt
  Errs-wrapped-bare (some f) = refl

  Errs-wrapped-delivery : (o : Option Failure) → Errs (λ b. b ≡ true) (wrapped relay delivery o)
  Errs-wrapped-delivery none = tt
  Errs-wrapped-delivery (some f) = refl

  -- A call that is no MAIL and no end of the data leaves the counts.
  Counts-quiet :
      (m a : ℕ) (calls : Calls) (ep : Endpoint) (c : Call)
      → IsSecret (ep, c)
      → IsQuiet c
      → Counts m a calls
      → Counts m a (calls ++ (ep, c) ∷ [])
  Counts-quiet m a calls ep c s (q, r) h =
      let (e, f, k) = Counts-call m a calls ep c s h in
      (omega (arith, e, q), omega (arith, f, r ep), k)

  start_tls-Ends :
      (m a : ℕ) (ep : Endpoint) (calls : Calls)
      → Counts m a calls
      → Ends (Counts m a) (λ b. b ≡ false) (start_tls relay ep calls)
  unfolding start_tls
  start_tls-Ends m a ep calls h = elim (Bool-cases (not (bytes_eq ep.tls (codes "starttls")))) [
    | inl t ↦ rw (start_tls, t) (h, tt)
    | inr t ↦ elim (Bool-cases (not (relay.offers_starttls ep))) [
      | inl u ↦ rw (start_tls, t, u) (h, refl)
      | inr u ↦
          rw (start_tls, t, u)
            (
              Counts-quiet m a calls ep starttls tt (refl, λ e. refl) h,
              Errs-wrapped-bare (relay.answer ep starttls),
            )
    ]
  ]

  log_in-Ends :
      (cfg : SmtpConfig) (m a : ℕ) (ep : Endpoint) (calls : Calls)
      → Counts m a calls
      → Ends (Counts m a) (λ b. b ≡ false) (log_in relay cfg ep calls)
  unfolding log_in
  log_in-Ends cfg m a ep calls h = elim (Bool-cases (not (wants_auth cfg))) [
    | inl t ↦ rw (log_in, t) (h, tt)
    | inr t ↦ elim (Bool-cases (bytes_eq ep.tls (codes "none"))) [
      | inl u ↦ rw (log_in, t, u) (h, refl)
      | inr u ↦ elim (Bool-cases (not (known_mechanism cfg.auth_type))) [
        | inl v ↦ rw (log_in, t, u, v) (h, refl)
        | inr v ↦
            rw (log_in, t, u, v)
              (
                Counts-quiet m a calls ep auth u (refl, λ e. refl) h,
                Errs-wrapped-bare (relay.answer ep auth),
              )
      ]
    ]
  ]

  -- Parts that keep the counts, one after the other.
  chain :
      (m a : ℕ) (E : Bool → Type 0) (run : Run) (next : Calls → Run)
      → Ends (Counts m a) E run
      → ((calls : Calls) → Counts m a calls → Ends (Counts m a) E (next calls))
      → Ends (Counts m a) E (run and_on next)
  chain m a E run next h step =
      and_on-Ends (Counts m a) (Counts m a) E run next h (λ calls p. p) step

  quiet-bare :
      (m a : ℕ) (ep : Endpoint) (c : Call) (calls : Calls)
      → IsSecret (ep, c)
      → IsQuiet c
      → Counts m a calls
      → Ends (Counts m a) (λ b. b ≡ false) (ask relay bare ep c calls)
  quiet-bare m a ep c calls s q h =
      (Counts-quiet m a calls ep c s q h, Errs-wrapped-bare (relay.answer ep c))

  quiet-delivery :
      (m a : ℕ) (ep : Endpoint) (c : Call) (calls : Calls)
      → IsSecret (ep, c)
      → IsQuiet c
      → Counts m a calls
      → Ends (Counts m a) (λ b. b ≡ true) (ask relay delivery ep c calls)
  quiet-delivery m a ep c calls s q h =
      (Counts-quiet m a calls ep c s q h, Errs-wrapped-delivery (relay.answer ep c))

  -- The handshake hands nothing over.
  pub handshake-Ends :
      (cfg : SmtpConfig) (m a : ℕ) (ep : Endpoint) (calls : Calls)
      → Counts m a calls
      → Ends (Counts m a) (λ b. b ≡ false) (handshake relay cfg ep calls)
  unfolding handshake
  handshake-Ends cfg m a ep calls h =
      let E = λ (b : Bool). b ≡ false in
      chain m a E _ _
        (chain m a E _ _
          (chain m a E _ _
            (chain m a E (ask relay bare ep dial calls and_on ask relay bare ep banner) _
              (chain m a E (ask relay bare ep dial calls) (ask relay bare ep banner)
                (quiet-bare m a ep dial calls tt (refl, λ e. refl) h)
                (λ c k. quiet-bare m a ep banner c tt (refl, λ e. refl) k))
              (λ c k. quiet-bare m a ep hello c tt (refl, λ e. refl) k))
            (start_tls-Ends m a ep))
          (log_in-Ends cfg m a ep))
        (λ c k. (k, Errs-wrapped-bare (relay.alive ep)))

  recipients-Ends :
      (m a : ℕ) (ep : Endpoint) (rs : List Bytes) (calls : Calls)
      → Counts m a calls
      → Ends (Counts m a) (λ b. b ≡ true) (recipients relay ep rs calls)
  unfolding recipients
  recipients-Ends m a ep [] calls h = (h, tt)
  recipients-Ends m a ep (r ∷ rs) calls h =
      chain m a (λ b. b ≡ true) (ask relay delivery ep (rcpt_to r) calls) (recipients relay ep rs)
        (quiet-delivery m a ep (rcpt_to r) calls tt (refl, λ e. refl) h) (recipients-Ends m a ep rs)

  -- A run in which the message was handed over: taken, or refused with a delivery error.
  abbrev pub Handed : ℕ → ℕ → Run → Type 0
  Handed m a (calls, none) = Counts (m + 1) (a + 1) calls
  Handed m a (calls, some (delivery f)) = Counts (m + 1) a calls
  Handed m a (calls, some (bare f)) = ⊥
  Handed m a (calls, some (config f)) = ⊥

  Handed-close :
      (m a : ℕ) (ep : Endpoint) (calls : Calls)
      → Counts (m + 1) a calls
      → Handed m a (ask relay delivery ep close calls)
  Handed-close m a ep calls h =
      let (e, f, k) = Counts-call (m + 1) a calls ep close tt h in
      elim (Option-cases (relay.answer ep close)) [
        | inl t ↦ rw t (omega (arith, e), rw t at f, k)
        | inr (x, t) ↦ rw t (omega (arith, e), omega (arith, rw t at f), k)
      ]

  Handed-last :
      (m a : ℕ) (ep : Endpoint) (run : Run)
      → Ends (Counts (m + 1) a) (λ b. b ≡ true) run
      → Handed m a (run and_on ask relay delivery ep close)
  Handed-last m a ep (calls, none) (h, e) = Handed-close m a ep calls h
  Handed-last m a ep (calls, some (delivery f)) (h, e) = h
  Handed-last m a ep (calls, some (bare f)) (h, e) = cc
  Handed-last m a ep (calls, some (config f)) (h, e) = cc

  Handed-deliver :
      (m a : ℕ) (ep : Endpoint) (from : Bytes) (rs : List Bytes) (body : Bytes) (calls : Calls)
      → Counts m a calls
      → Handed m a (deliver relay ep from rs body calls)
  unfolding deliver
  Handed-deliver m a ep from rs body calls h =
      let E = λ (b : Bool). b ≡ true in
      let (e, f, k) = Counts-call m a calls ep (mail_from from) tt h in
      Handed-last m a ep _ (
        chain (m + 1) a E _ _
          (chain (m + 1) a E
            (ask relay delivery ep (mail_from from) calls and_on recipients relay ep rs) _
            (chain (m + 1) a E (ask relay delivery ep (mail_from from) calls)
              (recipients relay ep rs)
              ((e, omega (arith, f), k), Errs-wrapped-delivery (relay.answer ep (mail_from from)))
              (recipients-Ends (m + 1) a ep rs))
            (λ c q. quiet-delivery (m + 1) a ep data_command c tt (refl, λ e. refl) q))
          (λ c q. quiet-delivery (m + 1) a ep (write body) c tt (refl, λ e. refl) q))

  -- A conversation: the handshake failed and nothing was handed over, or it was.
  abbrev pub Tried : ℕ → ℕ → Run → Type 0
  Tried m a (calls, none) = Counts (m + 1) (a + 1) calls
  Tried m a (calls, some (delivery f)) = Counts (m + 1) a calls
  Tried m a (calls, some (bare f)) = Counts m a calls
  Tried m a (calls, some (config f)) = Counts m a calls

  Tried-of_Handed : (m a : ℕ) (run : Run) → Handed m a run → Tried m a run
  Tried-of_Handed m a (calls, none) h = h
  Tried-of_Handed m a (calls, some (delivery f)) h = h
  Tried-of_Handed m a (calls, some (bare f)) h = absurd h
  Tried-of_Handed m a (calls, some (config f)) h = absurd h

  Tried-and_on :
      (m a : ℕ) (run : Run) (next : Calls → Run)
      → Ends (Counts m a) (λ b. b ≡ false) run
      → ((calls : Calls) → Counts m a calls → Handed m a (next calls))
      → Tried m a (run and_on next)
  Tried-and_on m a (calls, none) next (h, e) step = Tried-of_Handed m a (next calls) (step calls h)
  Tried-and_on m a (calls, some (bare f)) next (h, e) step = h
  Tried-and_on m a (calls, some (config f)) next (h, e) step = h
  Tried-and_on m a (calls, some (delivery f)) next (h, e) step = cc

  pub send_via-Tried :
      (cfg : SmtpConfig) (from : Bytes) (rs : List Bytes) (body : Bytes) (ep : Endpoint)
      (calls : Calls) (m a : ℕ)
      → Counts m a calls
      → Tried m a (send_via relay cfg from rs body ep calls)
  unfolding send_via
  send_via-Tried cfg from rs body ep calls m a h =
      Tried-and_on m a _ _ (handshake-Ends cfg m a ep calls h) (Handed-deliver m a ep from rs body)
