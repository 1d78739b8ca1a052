-- ===== src/SmtpProxy/Login/Answered.antt =====
-- How a login ends, by what the verifier says of the user name and the password.
use sigillum.Common.{Bytes, false, ◌≡◌, ◌⊎◌, Option, none, some, codes}
use sigillum.Credential.{Lookup, valid, invalid, lookup_failed}
use sigillum.Credential.Argon2.{HashLib}
use sigillum.Credential.Verifier.{MailCredential, Reader, LruOps, generated}
use sigillum.Credential.Verifier
use sigillum.SmtpProxy.Reply.{SmtpError}
use sigillum.SmtpProxy.Session.{Session, Calls, login_credential}
use sigillum.SmtpProxy.Login.{
  HitsOps, FailureLimiter, AttemptTimes, LoginVerdict, refused_early, judged, login_of, auth_failed,
  invalid_credentials,
}

-- What an attempt makes of the session, the sender's state and the reply, where the verifier says
-- `answer`: an identity only for a valid login, and else the refusal of the login, recorded once.
pub data Ends {W : Type 0} (calls : Calls W) (id user : Bytes) (answer : Lookup Verifier.Result)
    (Limited : Type 0) (s : Session) (w : W) (res : Session × W × Option SmtpError) : Type 0 where
  identified :
      (r : Verifier.Result)
      → answer ≡ valid r
      → res ≡ (login_credential (login_of r) s, w, none)
      → Ends calls id user answer Limited s w res
  refused :
      answer ≡ invalid
      → res
        ≡ (s, auth_failed calls id user (codes "invalid_credentials") w, some invalid_credentials)
      → Ends calls id user answer Limited s w res
  deferred :
      (reason : Bytes) (e : SmtpError)
      → (answer ≡ lookup_failed) ⊎ Limited
      → e.code ≡ 454
      → res ≡ (s, auth_failed calls id user reason w, some e)
      → Ends calls id user answer Limited s w res

-- The verifier's answer, or none at the limiter.
abbrev pub Judged : Type 0 → LoginVerdict → Lookup Verifier.Result → Type 0
Judged Limited v answer =
    (v ≡ judged answer) ⊎ (Limited × ((v ≡ refused_early) ⊎ (v ≡ judged lookup_failed)))

module _ (lib : HashLib) {C : Type 0} (lru : LruOps C) (reader : Reader) {H : Type 0}
    (hits : HitsOps H) (limiter : Option FailureLimiter) (at : AttemptTimes) where
  -- The credential that the lookup found has an own hash, and logins are limited.
  abbrev pub IsLimited : Lookup MailCredential → Type 0
  IsLimited l =
      (mc : MailCredential) × (f : FailureLimiter) × (l ≡ valid mc)
      × (generated mc ≡ false)
      × (limiter ≡ some f)
