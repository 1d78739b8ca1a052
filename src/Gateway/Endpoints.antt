-- ===== src/Gateway/Endpoints.antt =====
-- `preferReadyEndpoints` of internal/gateway/gateway.go. Go keys the map of unready endpoints by
-- `net.JoinHostPort`, which gives different texts for different hosts and ports.
use sigillum.Common.{Bool, not, ◌&&◌, List, [], ◌∷◌, ◌++◌, if◌then◌else◌, any, bytes_eq, eq_ℤ}
use sigillum.Gateway.Types.{Endpoint, EndpointStatus}

abbrev pub is_same : Endpoint → EndpointStatus → Bool
is_same ep st = bytes_eq st.host ep.host && eq_ℤ st.port ep.port

unfoldable pub is_unready : List EndpointStatus → Endpoint → Bool
is_unready probed ep = any (λ st. not st.ready && is_same ep st) probed

abbrev pub keep {ℓ} : {A : Type ℓ} → (A → Bool) → List A → List A
keep test [] = []
keep test (x ∷ xs) = let rest = keep test xs in if test x then x ∷ rest else rest

-- `len(unready) == 0`.
abbrev pub none_unready : List EndpointStatus → Bool
none_unready probed = not (any (λ st. not st.ready) probed)

-- The loop, with `out` and `last` as it has filled them.
abbrev pub split_ready :
    (Endpoint → Bool) → List Endpoint → List Endpoint → List Endpoint → List Endpoint
split_ready unready out last [] = out ++ last
split_ready unready out last (ep ∷ eps) =
    let late = split_ready unready out (last ++ ep ∷ []) eps in
    let early = split_ready unready (out ++ ep ∷ []) last eps in if unready ep then late else early

unfoldable pub prefer_ready_endpoints : List Endpoint → List EndpointStatus → List Endpoint
prefer_ready_endpoints eps probed =
    if none_unready probed then eps else split_ready (is_unready probed) [] [] eps
