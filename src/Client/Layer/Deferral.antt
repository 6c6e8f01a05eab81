-- ===== src/Client/Layer/Deferral.antt =====
-- `recordDeferred` of pkg/client/backend/wal/layer.go, and what the mutations do with its answer. Each
-- attempt sees the client at two moments, between which others run: at `RecordOp`, and at the
-- snapshot of `AdmissionState` after a refusal.
use g_mountie.Prelude.{
  ◌≡◌, ◌⊎◌, inl, inr, Bool, true, false, ◌&&◌, Option, none, some, List, [], ◌∷◌, if◌then◌else◌,
  Bool-cases, arith,
}
use g_mountie.Paths.{is_empty}
use g_mountie.Fserr.{FsError, eio}
use g_mountie.Client.Log.{Op}
use g_mountie.Client.Overlay.{Time}
use g_mountie.Client.Flush.{Coordinator}
use g_mountie.Client.Manager.{
  Manager, is_delegated, is_draining, RecordError, not_delegated, not_owned, append_failed,
  record_op,
}

pub record Attempt : Type 0 where
  pub manager : Manager
  pub coordinator : Coordinator
  pub commits : Bool  -- whether the log's transaction commits
  pub snapshot : Manager
  pub live : Bool  -- the caller's context has not ended

pub data Deferred : Type 0 where
  recorded : Coordinator → Deferred
  refused : RecordError → Deferred
  waiting : Deferred  -- the attempts ran out

abbrev pub decide : Op → Attempt → Deferred → Deferred
decide op t later =
    if is_draining t.snapshot op.path
    then (if t.live then later else refused not_delegated)
    else (if is_delegated t.snapshot op.path && is_empty op.new_path
        then later
        else refused not_delegated)

abbrev pub after_record : Op → Attempt → Deferred → Coordinator × Option RecordError → Deferred
after_record op t later (c, none) = recorded c
after_record op t later (c, some not_delegated) = decide op t later
after_record op t later (c, some not_owned) = refused not_owned
after_record op t later (c, some append_failed) = refused append_failed

-- `recordDeferred`
unfoldable pub record_deferred : Op → Time → List Attempt → Deferred
record_deferred op now [] = waiting
record_deferred op now (t ∷ attempts) =
    after_record op t (record_deferred op now attempts)
      (record_op t.commits t.manager t.coordinator op now)

-- What a mutation does: it is deferred, forwarded to the inner backend, or fails.
pub data Route : Type 0 where
  deferred : Coordinator → Route
  forwarded : Route
  fails : FsError → Route
  parked : Route

-- `deferOrForward`, and the switch of `Create`, `Mkdir`, `SetAttr`, `Symlink` and `Write`.
abbrev pub route : Deferred → Route
route (recorded c) = deferred c
route (refused not_delegated) = forwarded
route (refused not_owned) = fails eio
route (refused append_failed) = fails eio
route waiting = parked

unfoldable pub defer_or_forward : Op → Time → List Attempt → Route
defer_or_forward op now attempts = route (record_deferred op now attempts)

-- The snapshot of an attempt showed no recall of the path in flight, and either no grant that covers
-- it or that the operation is a rename; or there was a recall, and the caller's context had ended.
abbrev pub Released : Op → Attempt → Type 0
Released op t =
    ((is_draining t.snapshot op.path ≡ true) × (t.live ≡ false))
    ⊎ ((is_draining t.snapshot op.path ≡ false)
        × ((is_delegated t.snapshot op.path ≡ false) ⊎ (is_empty op.new_path ≡ false)))

abbrev pub SomeReleased : Op → List Attempt → Type 0
SomeReleased op [] = ⊥
SomeReleased op (t ∷ attempts) = Released op t ⊎ SomeReleased op attempts

decide_forwards :
    (op : Op) (t : Attempt) (later : Deferred)
    → route (decide op t later) ≡ forwarded
    → Released op t ⊎ (route later ≡ forwarded)
decide_forwards op t later e = elim (Bool-cases (is_draining t.snapshot op.path)) [
  | inl y ↦ elim (Bool-cases t.live) [ inl z ↦ inr (rw (y, z) at e) | inr n ↦ inl (inl (y, n)) ]
  | inr n ↦ elim (Bool-cases (is_delegated t.snapshot op.path)) [
    | inl z ↦ elim (Bool-cases (is_empty op.new_path)) [
      | inl w ↦ inr (rw (n, z, w) at e)
      | inr m ↦ inl (inr (n, inr m))
    ]
    | inr m ↦ inl (inr (n, inl m))
  ]
]

attempt_forwards :
    (op : Op) (t : Attempt) (later : Deferred) (r : Coordinator × Option RecordError)
    → route (after_record op t later r) ≡ forwarded
    → Released op t ⊎ (route later ≡ forwarded)
attempt_forwards op t later (c, none) e = absurd (ground (arith, e))
attempt_forwards op t later (c, some not_delegated) e = decide_forwards op t later e
attempt_forwards op t later (c, some not_owned) e = absurd (ground (arith, e))
attempt_forwards op t later (c, some append_failed) e = absurd (ground (arith, e))

-- A mutation is forwarded to the server only after an attempt whose snapshot shows that no recall
-- of its path is in flight, and that no grant covers the path or that it is a rename; or else its
-- caller's context had ended during a recall.
pub forwarded-SomeReleased :
    (op : Op) (now : Time) (attempts : List Attempt)
    → defer_or_forward op now attempts ≡ forwarded
    → SomeReleased op attempts
unfolding defer_or_forward record_deferred
forwarded-SomeReleased op now [] e = ground (arith, e)
forwarded-SomeReleased op now (t ∷ attempts) e =
    elim (attempt_forwards op t (record_deferred op now attempts)
      (record_op t.commits t.manager t.coordinator op now) e) [
        | inl r ↦ inl r
        | inr f ↦ inr (forwarded-SomeReleased op now attempts f)
      ]
