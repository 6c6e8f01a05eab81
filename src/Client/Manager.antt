-- ===== src/Client/Manager.antt =====
-- `Manager` of pkg/client/backend/delegation/manager.go: the grants that a client holds and the
-- roots that are being recalled from it; and `RecordOp` of pkg/client/backend/wal/wal.go, which asks
-- it for admission. Each critical section of the mutex is one step; the answer of the recall's
-- flush, and what other calls do during it, are arguments.
pub mod Recall
use g_mountie.Prelude.{
  ℕ, ◌+◌, ◌-◌, Bool, true, false, ◌&&◌, ◌||◌, not, Option, none, some, List, [], ◌∷◌, ◌==◌, any,
  keep_if, get, put, del, if◌then◌else◌, Bytes, Bytes-discrete,
}
use g_mountie.Paths.{contains, is_empty}
use g_mountie.Delegation.Arbiter.{DelegationGrant}
use g_mountie.Client.Log.{Op, OpKind, op_rename, BboltLog, append}
use g_mountie.Client.Overlay.{Time, Overlay, owns_full}
use g_mountie.Client.Overlay.Apply.{apply_op}
use g_mountie.Client.Flush.{Coordinator}

pub record GrantState : Type 0 where
  pub granted_root : Bytes
  pub excluded_paths : List Bytes
  pub gen : ℕ

pub record Manager : Type 0 where
  pub grants : List (Bytes × GrantState)  -- by granted root
  pub draining : List (Bytes × ℕ)  -- the recalls in flight of each root

abbrev pub new_manager : Manager
new_manager = record { grants = []; draining = [] }

-- Does a grant cover the path?
abbrev pub covers : Bytes → GrantState → Bool
covers path g = contains g.granted_root path && not (any (λ x. contains x path) g.excluded_paths)

unfoldable pub covering_grant : List (Bytes × GrantState) → Bytes → Option GrantState
covering_grant [] path = none
covering_grant ((k, g) ∷ m) path = if covers path g then some g else covering_grant m path

abbrev pub is_some : Option GrantState → Bool
is_some none = false
is_some (some g) = true

unfoldable pub is_delegated : Manager → Bytes → Bool
is_delegated m path = is_some (covering_grant m.grants path)

unfoldable pub is_draining : Manager → Bytes → Bool
is_draining m path = any (λ e. contains e.0 path) m.draining

unfoldable pub is_write_delegated : Manager → Bytes → Bool
unfolding is_draining is_delegated
is_write_delegated m path = if is_draining m path then false else is_delegated m path

abbrev pub gen_of : Option GrantState → ℕ
gen_of none = 0
gen_of (some g) = g.gen

unfoldable pub gen_for : Manager → Bytes → ℕ
gen_for m path = gen_of (covering_grant m.grants path)

abbrev pub count_of : Option ℕ → ℕ
count_of none = 0
count_of (some n) = n

unfoldable pub mark_draining : Manager → Bytes → Manager
unfolding get put
mark_draining m root = record m {
  draining = put Bytes-discrete m.draining root (count_of (get Bytes-discrete m.draining root) + 1);
}

unfoldable pub end_draining : Manager → Bytes → Manager
unfolding get put del
end_draining m root =
    let n = count_of (get Bytes-discrete m.draining root) - 1 in
    if n == 0
    then record m { draining = del Bytes-discrete m.draining root }
    else record m { draining = put Bytes-discrete m.draining root n }

-- `Apply`; a denial is ignored.
unfoldable pub apply_grant : Manager → DelegationGrant → Manager
unfolding put
apply_grant m grant = if is_empty grant.granted_root then m else record m {
  grants = put Bytes-discrete m.grants grant.granted_root (record {
    granted_root = grant.granted_root;
    excluded_paths = grant.excluded_paths;
    gen = grant.gen;
  });
}

abbrev pub recalled : Bytes → GrantState → Bool
recalled root g = contains root g.granted_root || contains g.granted_root root

unfoldable pub drop_grants : Manager → Bytes → Manager
drop_grants m root = record m { grants = keep_if (λ e. not (recalled root e.1)) m.grants }

-- `OnRecall`, with what other calls do during its flush, and between the drop of the grants and the
-- end of the drain, where it invalidates the cache: whether it answers without an error, so that
-- the recall is acked.
unfoldable pub on_recall :
    (Manager → Manager) → (Manager → Manager) → Bool → Manager → Bytes → Manager × Bool
unfolding mark_draining end_draining drop_grants
on_recall meanwhile after flushed m root =
    let b = meanwhile (mark_draining m root) in
    if flushed
    then (end_draining (after (drop_grants b root)) root, true)
    else (end_draining b root, false)

pub data RecordError : Type 0 where
  not_delegated not_owned append_failed : RecordError

abbrev pub is_rename : OpKind → Bool
is_rename op_rename = true
is_rename _ = false

abbrev pub recorded :
    Coordinator → Op → Time → Option (ℕ × BboltLog) → Coordinator × Option RecordError
recorded c op now none = (c, some append_failed)
recorded c op now (some (seq, log)) =
    (record c { log = log; overlay = apply_op c.overlay op now }, none)

-- `RecordOp` under its mutex, once there is room below the cap.
unfoldable pub record_op :
    Bool → Manager → Coordinator → Op → Time → Coordinator × Option RecordError
record_op db m c op now =
    let stamped = record op { gen = gen_for m op.path } in
    if not (is_write_delegated m op.path)
    then (c, some not_delegated)
    else (if not (is_empty op.new_path) && not (is_write_delegated m op.new_path)
        then (c, some not_delegated)
        else (if is_rename op.kind && not (owns_full c.overlay op.path)
            then (c, some not_owned)
            else recorded c stamped now (append db c.log stamped)))
