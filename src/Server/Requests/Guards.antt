-- ===== src/Server/Requests/Guards.antt =====
-- The guards of the mutating handlers, of pkg/server/controller/idempotency.go: whose session it is,
-- and whether the request goes through the session's replies.
use g_mountie.Prelude.{
  ◌≡◌, ◌≢◌, ◌⊎◌, ◌↔◌, inl, inr, refl, ◌&&◌, not, Option, none, some, List, [], ◌∷◌, if◌then◌else◌,
  Bytes, Bytes-discrete, same, get, Option-cases, arith,
}
use g_mountie.Paths.{is_empty}

-- gRPC's codes that the guards give.
pub data Code : Type 0 where
  invalid_argument not_found permission_denied internal : Code

pub data Resolved : Type 0 where
  session : Bytes → Resolved  -- the session's id
  refused : Code → Resolved

abbrev pub owned_by : Bytes → Bytes → Option Bytes → Resolved
owned_by caller id none = refused not_found
owned_by caller id (some principal) =
    if not (is_empty principal) && not (same caller principal)
    then refused permission_denied
    else session id

-- `resolveSession`; `sessions` gives the principal of each session.
unfoldable pub resolve_session : List (Bytes × Bytes) → Bytes → Bytes → Resolved
resolve_session sessions caller id =
    if is_empty id
    then refused invalid_argument
    else owned_by caller id (get Bytes-discrete sessions id)

-- How a handler is run: not at all, by `DoOnce`, or without the session's replies.
pub data Admission : Type 0 where
  rejected : Code → Admission
  once : Bytes → Admission
  unguarded : Admission

-- `withIdempotency` up to `DoOnce`.
unfoldable pub with_idempotency : Bytes → Admission
with_idempotency request_id =
    if is_empty request_id then rejected invalid_argument else once request_id

unfoldable pub with_optional_idempotency : Bytes → Admission
unfolding with_idempotency
with_optional_idempotency request_id =
    if is_empty request_id then unguarded else with_idempotency request_id

-- Who may use a session.
abbrev pub MayUse : List (Bytes × Bytes) → Bytes → Bytes → Type 0
MayUse sessions caller id =
    (id ≢ [])
    × ((principal : Bytes) × (get Bytes-discrete sessions id ≡ some principal)
        × ((principal ≡ []) ⊎ (caller ≡ principal)))

owned_by_iff :
    (caller id principal : Bytes)
    → (owned_by caller id (some principal) ≡ session id) ↔ ((principal ≡ []) ⊎ (caller ≡ principal))
owned_by_iff caller id principal = ground arith

-- A handler gets a session exactly where the id is not empty, the session is in the table, and its
-- principal is empty or the caller's: no other caller gets it.
pub resolve_session_iff :
    (sessions : List (Bytes × Bytes)) (caller id : Bytes)
    → (resolve_session sessions caller id ≡ session id) ↔ MayUse sessions caller id
unfolding resolve_session
resolve_session_iff sessions caller [] = ground arith
resolve_session_iff sessions caller (x ∷ id) =
    elim (Option-cases (get Bytes-discrete sessions (x ∷ id))) [
      | inl n ↦
          rw (n, resolve_session)
            (λ e. absurd (ground (arith, e)), λ m. absurd (ground (arith, m.1.1)))
      | inr (p, q) ↦
          rw (q, resolve_session)
            (
              λ e. (λ z. ground (arith, z), (p, refl, (owned_by_iff caller (x ∷ id) p).0 e)),
              λ m. (owned_by_iff caller (x ∷ id) p).1 (of_some p m.1.0 m.1.1 m.1.2),
            )
    ]
  where
    of_some : (p r : Bytes) → some p ≡ some r → (r ≡ []) ⊎ (caller ≡ r) → (p ≡ []) ⊎ (caller ≡ p)
    of_some p r e h = ground (arith, e, h)
