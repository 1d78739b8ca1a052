-- ===== src/Gateway/Backend.antt =====
-- `backendForPolicy`, `openDriver` and `backendIsReady` of internal/gateway/gateway.go.
use sigillum.Common.{
  Bytes, Bool, false, List, [], ◌∷◌, ◌++◌, none, some, if◌then◌else◌, codes, bytes_eq,
}
use sigillum.Policy.Types.{MailPolicy}
use sigillum.Gateway.Types.{
  Fallible, ok, err, MailBackend, BackendSpec, BackendStatus, Condition, Config, Driver, Services,
}
use sigillum.Gateway.Validity.{Cache, check}
use sigillum.Gateway.Endpoints.{prefer_ready_endpoints}

abbrev pub slash : Bytes
slash = codes "/"

-- The first Ready condition decides.
unfoldable pub first_ready : List Condition → Bool
first_ready [] = false
first_ready (c ∷ cs) =
    if bytes_eq c.type (codes "Ready") then bytes_eq c.status (codes "True") else first_ready cs

abbrev pub backend_is_ready : BackendStatus → Bool
backend_is_ready s = first_ready s.conditions

-- What `backendForPolicy` returns where its error is nil.
pub record Resolved : Type 0 where
  pub key : Bytes
  pub spec : BackendSpec
  pub status : BackendStatus
  pub secret_namespace : Bytes

module _ (services : Services) where
  -- The two checks on a backend that was found, `what` being its kind and name.
  unfoldable pub admit_backend :
      (what key secret_namespace : Bytes) → MailBackend → Cache → Cache × Fallible Resolved
  admit_backend what key ns b m =
      let (m', verr) = check b.uid b.generation (services.validate_backend b) m in
      elim verr [
        | some e ↦ (m', err (what ++ codes " is invalid: " ++ e))
        | none ↦
            if backend_is_ready b.status
            then (
              m',
              ok (record { key = key; spec = b.spec; status = b.status; secret_namespace = ns }),
            )
            else (m', err (what ++ codes " is not Ready"))
      ]

  unfoldable pub namespaced_backend : MailPolicy → Cache → Cache × Fallible Resolved
  namespaced_backend p m =
      let name = p.spec.backend_ref.name in
      let what = codes "MailBackend " ++ p.namespace ++ slash ++ name in
      elim (services.get_mail_backend p.namespace name) [
        | err e ↦ (m, err (what ++ codes ": " ++ e))
        | ok b ↦ admit_backend what (p.namespace ++ slash ++ b.name) b.namespace b m
      ]

  unfoldable pub cluster_backend : MailPolicy → Cache → Cache × Fallible Resolved
  cluster_backend p m =
      let name = p.spec.backend_ref.name in
      let what = codes "ClusterMailBackend " ++ name in
      elim (services.get_cluster_mail_backend name) [
        | err e ↦ (m, err (what ++ codes ": " ++ e))
        | ok b ↦ admit_backend what (slash ++ b.name) [] b m
      ]

  unfoldable pub backend_for_policy : MailPolicy → Cache → Cache × Fallible Resolved
  backend_for_policy p m =
      let kind = p.spec.backend_ref.kind in
      if bytes_eq kind (codes "MailBackend")
      then namespaced_backend p m
      else if bytes_eq kind (codes "ClusterMailBackend")
      then cluster_backend p m
      else if bytes_eq kind []
      then cluster_backend p m
      else (m, err (codes "unsupported backendRef.kind " ++ services.quote kind))

  abbrev pub with_ready_endpoints : Config → BackendStatus → Config
  with_ready_endpoints cfg s = elim cfg.smtp_endpoints [
    | none ↦ cfg
    | some eps ↦ record cfg { smtp_endpoints = some (prefer_ready_endpoints eps s.endpoint_status) }
  ]

  unfoldable pub open_driver : Resolved → Fallible Driver
  open_driver b = elim (services.resolve_backend_config b.key b.spec b.secret_namespace) [
    | err e ↦ err e
    | ok cfg ↦ services.new_driver (with_ready_endpoints cfg b.status)
  ]
