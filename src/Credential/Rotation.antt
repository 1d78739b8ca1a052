-- ===== src/Credential/Rotation.antt =====
-- The rotation of generated passwords in internal/controller/mailcredential_controller.go: `Reconcile`
-- from the point where a generated credential has passed its checks to the status that it writes. When
-- it is called again, logs and messages are left out; what the API answers to the write of the
-- Secret is an argument.
pub mod Grace
use sigillum.Common.{
  Bytes, ℕ, ◌+◌, Bool, true, false, not, ◌&&◌, ◌||◌, Option, none, some, [], codes, bytes_eq, ltb,
  if◌then◌else◌,
}
use sigillum.Credential.Argon2.{HashLib}
use sigillum.Credential.Verifier.{MailCredential, PreviousCredentialHash, hash_generated}

pub record CredentialHash : Type 0 where
  pub hash : Bytes
  pub created_at : ℕ

-- The fields of the status that a rotation reads and writes.
pub record Issued : Type 0 where
  pub secret_name : Bytes
  pub current : Option CredentialHash
  pub previous : Option PreviousCredentialHash
  pub last_rotate_request : Bytes

-- The name of the Secret and the annotation with a request, and the parsed settings.
pub record Wanted : Type 0 where
  pub secret_name : Bytes
  pub rotate_annotation : Bytes
  pub interval : ℕ
  pub grace : ℕ

pub data Reason : Type 0 where
  ready generated_mode_disabled guard_missing secret_conflict secret_write_failed : Reason

-- What `writeSecret` returns.
pub data Write : Type 0 where
  written conflict failed : Write

-- How a reconcile goes on: `secret_written`, and whether there is an error to return.
pub record Rotated : Type 0 where
  pub status : Issued
  pub reason : Reason
  pub secret_written : Bool
  pub retry : Bool

abbrev pub interval_elapsed : ℕ → ℕ → CredentialHash → Bool
interval_elapsed now interval cur = ltb 0 interval && not (ltb now (cur.created_at + interval))

abbrev pub due_for : ℕ → Wanted → Issued → Option CredentialHash → Bytes
due_for now want st none = codes "initial"
due_for now want st (some cur) =
    if not (bytes_eq st.secret_name want.secret_name)
    then codes "secretName changed"
    else if not (bytes_eq want.rotate_annotation [])
        && not (bytes_eq want.rotate_annotation st.last_rotate_request)
    then codes "rotation requested"
    else if interval_elapsed now want.interval cur
    then codes "rotation interval elapsed"
    else []

unfoldable pub rotation_due : (now : ℕ) → Wanted → Issued → Bytes
rotation_due now want st = due_for now want st st.current

abbrev pub unexpired : ℕ → Option PreviousCredentialHash → Option PreviousCredentialHash
unexpired now none = none
unexpired now (some prev) = if ltb now prev.valid_until then some prev else none

-- An expired previous password is dropped.
unfoldable pub expire_previous : (now : ℕ) → Issued → Issued
expire_previous now st = record st { previous = unexpired now st.previous }

abbrev pub has_current : Option CredentialHash → Bool
has_current none = false
has_current (some cur) = true

-- `usable`: an earlier password is still in a Secret.
abbrev pub still_usable : Issued → Bool
still_usable st = has_current st.current && not (bytes_eq st.secret_name [])

-- `keepOrFail`.
abbrev pub keep_or_fail : Issued → Reason → Reason
keep_or_fail st rsn = if still_usable st then ready else rsn

abbrev pub replaced : (now grace : ℕ) → Option CredentialHash → Option PreviousCredentialHash
replaced now grace none = none
replaced now grace (some cur) =
    if ltb 0 grace then some (record { hash = cur.hash; valid_until = now + grace }) else none

module _ (lib : HashLib) (now : ℕ) (want : Wanted) where
  -- After the new password was written.
  unfoldable pub issue : (password : Bytes) → Issued → Issued
  issue password st = record {
    secret_name = want.secret_name;
    current = some (record { hash = hash_generated lib password; created_at = now });
    previous = replaced now want.grace st.current;
    last_rotate_request = want.rotate_annotation;
  }

  abbrev pub keep : Issued → Reason → Bool → Rotated
  keep st reason retry = record {
    status = st;
    reason = reason;
    secret_written = false;
    retry = retry;
  }

  abbrev pub after_write : Write → Bytes → Issued → Rotated
  after_write conflict password st = keep st (keep_or_fail st secret_conflict) false
  after_write failed password st = keep st (keep_or_fail st secret_write_failed) true
  after_write written password st = record {
    status = issue password st;
    reason = ready;
    secret_written = true;
    retry = false;
  }

  abbrev pub on_password : Write → Option Bytes → Issued → Option Rotated
  on_password w none st = none
  on_password w (some password) st = some (after_write w password st)

  abbrev pub rotate_kept :
      (enabled guard_ok : Bool) → Option Bytes → Write → Issued → Option Rotated
  rotate_kept enabled guard_ok password w st =
      if not enabled
      then some (keep st generated_mode_disabled false)
      else if bytes_eq (rotation_due now want st) []
      then some (keep st ready false)
      else if not guard_ok
      then some (keep st (keep_or_fail st guard_missing) false)
      else on_password w password st

  -- `none` where no password can be generated: `Reconcile` returns the error and writes no status.
  unfoldable pub rotate : (enabled guard_ok : Bool) → Option Bytes → Write → Issued → Option Rotated
  rotate enabled guard_ok password w st =
      rotate_kept enabled guard_ok password w (expire_previous now st)

-- The status of the condition Ready.
abbrev pub ready_status : Reason → Bytes
ready_status ready = codes "True"
ready_status generated_mode_disabled = codes "False"
ready_status guard_missing = codes "False"
ready_status secret_conflict = codes "False"
ready_status secret_write_failed = codes "False"

abbrev pub accepted_account : Reason → (wanted before : Bytes) → Bytes
accepted_account why wanted before =
    if bytes_eq (ready_status why) (codes "True") then wanted else before

abbrev pub hash_text : Option CredentialHash → Option Bytes
hash_text none = none
hash_text (some cur) = some cur.hash

-- The credential with the status that `Reconcile` writes, as the verifier reads it.
unfoldable pub concluded : MailCredential → Rotated → MailCredential
concluded mc out = record mc {
  status = record mc.status {
    service_account_name =
        accepted_account out.reason mc.spec.service_account_name mc.status.service_account_name;
    current = hash_text out.status.current;
    previous = out.status.previous;
    ready = some (ready_status out.reason);
  };
}
