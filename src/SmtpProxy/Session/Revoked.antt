-- ===== src/SmtpProxy/Session/Revoked.antt =====
-- A session whose credential was revoked.
use sigillum.Common.{
  Bytes, true, ◌≡◌, ◌≢◌, sym, ap, subst, inl, inr, List, [], ◌∷◌, none, some, Option-cases,
}
use sigillum.Policy.Types.{Platform}
use sigillum.Gateway.Types.{Event}
use sigillum.SmtpProxy.Reply.{Reply, fine, refused}
use sigillum.SmtpProxy.Session.{
  Session, Surroundings, Calls, check_as, check_credential, mail, rcpt, receive_data, data_as,
  reset, go_on, accept_sender, identify, credential_revoked, auth_required,
}

-- The commands of a session after its login, each with what it finds.
pub data Command : Type 0 where
  mail_from : Surroundings → Bytes → Command
  rcpt_to : Surroundings → Bytes → Command
  data_end : Surroundings → Command
  rset : Command

-- Revoked, and nobody's: DATA is answered with 530.
abbrev pub IsRevoked : Session → Type 0
IsRevoked s = (s.revoked ≡ true) × (s.identity ≡ none)

module _ (env : Platform) {W : Type 0} (calls : Calls W) where
  unfoldable pub step : Command → Session → W → Session × W × Reply
  step (mail_from now from) s w = mail env calls now from s w
  step (rcpt_to now to) s w = rcpt env calls now to s w
  step (data_end now) s w = receive_data env calls now s w
  step rset s w = (reset s, w, fine)

  unfoldable pub run : List Command → Session → W → Session × W
  run [] s w = (s, w)
  run (c ∷ cs) s w = let (s', w', reply) = step c s w in run cs s' w'

  -- MAIL and DATA, the commands that begin and end a transaction.
  abbrev pub Transacts : Command → Type 0
  Transacts (mail_from now from) = Unit
  Transacts (rcpt_to now to) = ⊥
  Transacts (data_end now) = Unit
  Transacts rset = ⊥

  check_credential-revoked :
      (now : Surroundings) (from : Bytes) (to : List Bytes) (s : Session) (w : W)
      → s.revoked ≡ true
      → check_credential env calls now from to s w ≡ (s, w, some credential_revoked)
  unfolding check_credential
  check_credential-revoked now from to s w e =
      ap (λ b. check_as env calls now b s.cred from to s w) e

  mail-revoked :
      (now : Surroundings) (from : Bytes) (s : Session) (w : W)
      → s.revoked ≡ true
      → mail env calls now from s w ≡ (s, w, refused credential_revoked)
  unfolding mail
  mail-revoked now from s w e =
      ap
        (go_on env calls now (λ x y.
          go_on env calls now (accept_sender env calls now from)
            (identify env calls now x.identity x y)))
        (check_credential-revoked now from [] s w e)

  data-nobody :
      (now : Surroundings) (s : Session) (w : W)
      → s.identity ≡ none
      → receive_data env calls now s w ≡ (s, w, refused auth_required)
  unfolding receive_data
  data-nobody now s w e = ap (λ i. data_as env calls now i s w) e

  -- What a revoked session's command leaves: the session as revoked, the outside untouched but for
  -- rejections, and a transaction that is refused.
  abbrev Stays : (W → Type 0) → Command → Session × W × Reply → Type 0
  Stays P c (s', w', reply) = IsRevoked s' × P w' × (Transacts c → reply ≢ fine)

  step-IsRevoked :
      (P : W → Type 0)
      → ((ev : Event) (reason : Bytes) (w : W) → P w → P (calls.reject ev reason w))
      → (c : Command) (s : Session) (w : W) → IsRevoked s
      → P w
      → Stays P c (step c s w)
  unfolding step rcpt reset
  step-IsRevoked P h (mail_from now from) s w r p =
      subst (Stays P (mail_from now from)) (sym (mail-revoked now from s w r.0)) (r, p, λ t e. cc)
  step-IsRevoked P h (rcpt_to now to) s w r p = elim (Option-cases (calls.check_path to)) [
    | inl e ↦ rw (rcpt, e) (r, p, λ t. absurd t)
    | inr (x, e) ↦ rw (rcpt, e) (r, h _ _ w p, λ t. absurd t)
  ]
  step-IsRevoked P h (data_end now) s w r p =
      subst (Stays P (data_end now)) (sym (data-nobody now s w r.1)) (r, p, λ t e. cc)
  step-IsRevoked P h rset s w r p = (r, p, λ t. absurd t)

  -- A session that is revoked and nobody's stays so under any sequence of MAIL, RCPT, DATA and RSET,
  -- and all that such a sequence does to the sender's state is to record refusals: every property of
  -- it that a refusal keeps is kept.
  pub run-IsRevoked :
      (P : W → Type 0)
      → ((ev : Event) (reason : Bytes) (w : W) → P w → P (calls.reject ev reason w))
      → (cs : List Command) (s : Session) (w : W) → IsRevoked s
      → P w
      → let (s', w') = run cs s w in IsRevoked s' × P w'
  unfolding run
  run-IsRevoked P h [] s w r p = (r, p)
  run-IsRevoked P h (c ∷ cs) s w r p =
      let stays = step-IsRevoked P h c s w r p in
      run-IsRevoked P h cs (step c s w).0 (step c s w).1 stays.0 stays.1
