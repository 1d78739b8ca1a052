-- ===== src/SmtpProxy/Login.antt =====
-- The login by user name and password of internal/smtpproxy/credential.go: the exchanges of PLAIN and
-- LOGIN, `credentialLogin` and the limiter of failed logins. Attempts of one user from one address run
-- one after the other, so an attempt is one step; times are natural numbers.
pub mod Throttled
pub mod Answered
use sigillum.Common.{
  Bytes, ℕ, suc, ◌+◌, Bool, true, false, not, ◌&&◌, ◌||◌, List, [], ◌∷◌, ◌++◌, Option, none, some,
  ◌==◌, if◌then◌else◌, length, codes, bytes_eq, ltb, leb, all,
}
use sigillum.Gateway.Types.{Event, smtp, smtp_credential}
use sigillum.Credential.{Lookup, valid, invalid, lookup_failed, parse_username}
use sigillum.Credential.Argon2.{HashLib}
use sigillum.Credential.Verifier.{MailCredential, Reader, LruOps, generated, check, lookup}
use sigillum.Credential.Verifier
use sigillum.SmtpProxy.Reply.{SmtpError, smtp_error}
use sigillum.SmtpProxy.Session.{Login, Session, Calls, auth_unavailable, login_credential}

abbrev pub invalid_credentials : SmtpError
invalid_credentials = smtp_error 535 (5, 7, 8) (codes "Authentication credentials invalid")

abbrev pub auth_throttled : SmtpError
auth_throttled =
    smtp_error 454 (4, 7, 0) (codes "Too many failed authentication attempts, try again later")

-- `lru.Cache` of hashicorp/golang-lru, here with lists of times as its values.
pub record HitsOps (H : Type 0) : Type 0 where
  pub get : Bytes → H → Option (List ℕ) × H
  pub add : Bytes → List ℕ → H → H
  pub remove : Bytes → H → H

-- A limit that is not positive is 0.
pub record FailureLimiter : Type 0 where
  pub window : ℕ
  pub per_user_ip : ℕ

unfoldable pub user_ip_key : (user ip : Bytes) → Bytes
user_ip_key user ip = ip ++ 0 ∷ user

-- The times from the first one on that is after `now` minus the window.
unfoldable pub pruned : (now window : ℕ) → List ℕ → List ℕ
pruned now window [] = []
pruned now window (t ∷ ts) =
    let rest = pruned now window ts in if ltb now (t + window) then t ∷ ts else rest

-- What an attempt finds at the limiter: its turn does not come in time, it is refused, or it runs.
pub data Turn : Type 0 where
  no_turn throttled may_try : Turn

module _ {H : Type 0} (hits : HitsOps H) (f : FailureLimiter) where
  abbrev pub count_kept : Bytes → (found kept : List ℕ) → H → ℕ × H
  count_kept key ts [] h = (0, hits.remove key h)
  count_kept key ts (k ∷ ks) h =
      let n = suc (length ks) in if ltb n (length ts) then (n, hits.add key (k ∷ ks) h) else (n, h)

  abbrev pub count_found : (now : ℕ) → Bytes → Option (List ℕ) × H → ℕ × H
  count_found now key (none, h) = (0, h)
  count_found now key (some ts, h) = count_kept key ts (pruned now f.window ts) h

  -- `countLocked`.
  unfoldable pub count_locked : (now : ℕ) → Bytes → H → ℕ × H
  count_locked now key h = count_found now key (hits.get key h)

  abbrev pub block : ℕ × H → Turn × H
  block (n, h) = if leb f.per_user_ip n then (throttled, h) else (may_try, h)

  -- `turn` says whether the turn comes before the context ends.
  unfoldable pub begin : (turn : Bool) (now : ℕ) → Bytes → H → Turn × H
  begin turn now key h =
      if f.per_user_ip == 0
      then (may_try, h)
      else if not turn
      then (no_turn, h)
      else block (count_locked now key h)

  abbrev pub or_empty : Option (List ℕ) → List ℕ
  or_empty none = []
  or_empty (some ts) = ts

  -- The function that `Begin` returns.
  unfoldable pub done : (failed : Bool) (now : ℕ) → Bytes → H → H
  done failed now key h =
      if f.per_user_ip == 0 || not failed
      then h
      else let found = hits.get key h in hits.add key (or_empty found.0 ++ now ∷ []) found.1

-- What comes of a password: the limiter refused, or the verifier answered.
pub data LoginVerdict : Type 0 where
  refused_early : LoginVerdict
  judged : Lookup Verifier.Result → LoginVerdict

abbrev pub is_invalid : Lookup Verifier.Result → Bool
is_invalid (valid r) = false
is_invalid invalid = true
is_invalid lookup_failed = false

-- What an attempt finds: when it begins, when its check runs and ends, whether its turn and a slot
-- for argon2id come in time.
pub record AttemptTimes : Type 0 where
  pub begun : ℕ
  pub checked : ℕ
  pub ended : ℕ
  pub turn : Bool
  pub slot : Bool

module _ (lib : HashLib) {C : Type 0} (lru : LruOps C) (reader : Reader) {H : Type 0}
    (hits : HitsOps H) (limiter : Option FailureLimiter) (at : AttemptTimes) where
  abbrev pub unthrottled : MailCredential → Bytes → C → H → LoginVerdict × C × H
  unthrottled mc password c h =
      let a = check lib lru at.checked at.slot mc password c in (judged a.0, a.1, h)

  abbrev pub in_turn :
      FailureLimiter → Bytes → MailCredential → Bytes → C → Turn × H → LoginVerdict × C × H
  in_turn f key mc password c (no_turn, h) = (judged lookup_failed, c, h)
  in_turn f key mc password c (throttled, h) = (refused_early, c, h)
  in_turn f key mc password c (may_try, h) =
      let a = check lib lru at.checked at.slot mc password c in
      (judged a.0, a.1, done hits f (is_invalid a.0) at.ended key h)

  abbrev pub with_limiter :
      Option FailureLimiter → Bytes → MailCredential → Bytes → C → H → LoginVerdict × C × H
  with_limiter none key mc password c h = unthrottled mc password c h
  with_limiter (some f) key mc password c h =
      in_turn f key mc password c (begin hits f at.turn at.begun key h)

  -- The switch of `credentialLogin`, from what the lookup found.
  unfoldable pub verdict_on :
      Lookup MailCredential → (user ip password : Bytes) → C → H → LoginVerdict × C × H
  verdict_on invalid user ip password c h = (judged invalid, c, h)
  verdict_on lookup_failed user ip password c h = (judged lookup_failed, c, h)
  verdict_on (valid mc) user ip password c h =
      if generated mc
      then unthrottled mc password c h
      else with_limiter limiter (user_ip_key user ip) mc password c h

  unfoldable pub verdict : (user ip password : Bytes) → C → H → LoginVerdict × C × H
  verdict user ip password c h = verdict_on (lookup reader user) user ip password c h

unfoldable pub audit_byte : ℕ → Bool
audit_byte c = leb b'a' c && leb c b'z' || leb b'0' c && leb c b'9' || c == b'-' || c == b'.'

unfoldable pub audit_username : Bytes → Bytes
audit_username u =
    if ltb 317 (length u)
    then []
    else elim (parse_username u) [ none ↦ [] | some p ↦ if all audit_byte u then u else [] ]

unfoldable pub login_event : (id user : Bytes) → Event
login_event id user = record {
  message_id = id;
  namespace = [];
  service_account = [];
  auth_method = smtp_credential;
  credential = audit_username user;
  credential_previous = false;
  transport = smtp;
  from = [];
  to = [];
  policy = [];
  backend = [];
  decision = none;
  reason = [];
}

unfoldable pub login_of : Verifier.Result → Login
login_of r = record {
  username = r.username;
  namespace = r.namespace;
  service_account = r.service_account;
  previous = r.previous;
}

module _ {W : Type 0} (calls : Calls W) (id : Bytes) where
  -- `authFailed`.
  unfoldable pub auth_failed : (user reason : Bytes) → W → W
  auth_failed user reason w = calls.reject (login_event id user) reason w

  unfoldable pub conclude : Bytes → LoginVerdict → Session → W → Session × W × Option SmtpError
  conclude user refused_early s w =
      (s, auth_failed user (codes "auth_rate_limited") w, some auth_throttled)
  conclude user (judged (valid r)) s w = (login_credential (login_of r) s, w, none)
  conclude user (judged invalid) s w =
      (s, auth_failed user (codes "invalid_credentials") w, some invalid_credentials)
  conclude user (judged lookup_failed) s w =
      (s, auth_failed user (codes "auth_unavailable") w, some auth_unavailable)

  module _ (lib : HashLib) {C : Type 0} (lru : LruOps C) (reader : Reader) {H : Type 0}
      (hits : HitsOps H) (limiter : Option FailureLimiter) (at : AttemptTimes) where
    unfoldable pub credential_login :
        (user ip password : Bytes) → C → H → Session → W → (Session × W × Option SmtpError) × C × H
    credential_login user ip password c h s w =
        let v = verdict lib lru reader hits limiter at user ip password c h in
        (conclude user v.0 s w, v.1, v.2)

    -- The callback of PLAIN: the authorization identity is empty or the user.
    unfoldable pub plain_login :
        (identity user ip password : Bytes)
        → C
        → H
        → Session
        → W
        → (Session × W × Option SmtpError) × C × H
    plain_login identity user ip password c h s w =
        if not (bytes_eq identity []) && not (bytes_eq identity user)
        then ((s, auth_failed user (codes "invalid_credentials") w, some invalid_credentials), c, h)
        else credential_login user ip password c h s w
