-- ===== src/Delegation/Arbiter.antt =====
-- `Arbiter` of pkg/server/delegation/arbiter.go. Its state is behind one mutex, which `OnMutation`
-- releases for the recall's round trip: the two critical sections and the re-check of a coalesced
-- waiter are functions of their own. The clock's answer, the answer of the recall and whether a
-- transaction of the store commits are arguments. Metrics and log lines are left out.
pub mod Handoff
pub mod Requests
pub mod Races
use g_mountie.Prelude.{
  ℕ, ◌/◌, Bool, true, false, ◌&&◌, not, Option, none, some, List, [], ◌∷◌, ◌++◌, ◌==◌, ltb, any,
  keep_if, if◌then◌else◌, Bytes, Bytes-discrete, same,
}
use g_mountie.Paths.{is_empty}
use g_mountie.Watermark.{Key, Store, revoke_gen, next_gen}
use g_mountie.Delegation.Table.{
  Entry, Table, owner_of, entry_for_root, Granted, grant, release, drain_owner, new_table,
}
use g_mountie.Delegation.Cooldown.{
  CooldownConfig, CooldownTable, new_cooldown_table, trip, cooling, sweep,
}

pub record Arbiter : Type 0 where
  pub table : Table
  pub cooldown : CooldownTable
  pub regions : List Bytes  -- the roots that are being recalled
  pub store : Store

abbrev pub new_arbiter : CooldownConfig → Store → Arbiter
new_arbiter cfg store = record {
  table = new_table;
  cooldown = new_cooldown_table cfg;
  regions = [];
  store = store;
}

-- proto.DelegationGrant; an empty root is a denial.
pub record DelegationGrant : Type 0 where
  pub granted_root : Bytes
  pub excluded_paths : List Bytes
  pub gen : ℕ
  pub retry_after_ms : ℕ

abbrev pub empty_grant : DelegationGrant
empty_grant = record { granted_root = []; excluded_paths = []; gen = 0; retry_after_ms = 0 }

abbrev pub cfg_retry_ms : Arbiter → ℕ
cfg_retry_ms a = a.cooldown.cfg.base / 1000000

abbrev pub retry : Arbiter → DelegationGrant
retry a = record empty_grant { retry_after_ms = cfg_retry_ms a }

abbrev pub fence_key : Entry → Key
fence_key e = record { identity = e.principal; volume = e.volume; epoch = e.epoch }

-- The grant of an entry whose generation has been allocated.
abbrev pub answer_grant : Arbiter → ℕ → Option Granted → Arbiter × DelegationGrant
answer_grant a gen none = (a, retry a)
answer_grant a gen (some g) = (
  record a { table = g.table },
  record { granted_root = g.root; excluded_paths = g.excluded; gen = gen; retry_after_ms = 0 },
)

abbrev pub with_gen : Arbiter → Entry → Option (ℕ × Store) → Arbiter × DelegationGrant
with_gen a e none = (a, retry a)
with_gen a e (some (gen, store)) =
    answer_grant (record a { store = store }) gen (grant a.table (record e { gen = gen }))

-- `Request`; the entry's generation is not read.
unfoldable pub request : Bool → Arbiter → Entry → ℕ → Arbiter × DelegationGrant
request db a e now =
    let b = record a { cooldown = sweep a.cooldown now } in
    if is_empty e.root
    then (a, empty_grant)
    else (if cooling b.cooldown e.root now
        then (b, retry b)
        else with_gen b e (next_gen db b.store (fence_key e)))

pub data RecallError : Type 0 where
  no_stream other_failure : RecallError

pub data ArbiterError : Type 0 where
  recall_failed revoke_failed coalesced_recall_failed : ArbiterError

pub data Begin : Type 0 where
  proceed : Begin
  wait : Bytes → Begin
  recall : Bytes → Bytes → Option Entry → Begin  -- owner, root, the entry to fence

abbrev pub is_recalling : Arbiter → Bytes → Bool
is_recalling a root = any (λ r. same r root) a.regions

abbrev pub begin_at : Arbiter → Bytes → Option (Bytes × Bytes) → Arbiter × Begin
begin_at a contender none = (a, proceed)
begin_at a contender (some (owner, root)) =
    if same owner contender
    then (a, proceed)
    else (if is_recalling a root then (a, wait root) else (
      record a { regions = root ∷ a.regions },
      recall owner root (entry_for_root a.table root),
    ))

-- `OnMutation` up to the recall.
unfoldable pub begin_mutation : Arbiter → Bytes → Bytes → Arbiter × Begin
begin_mutation a contender path = begin_at a contender (owner_of a.table path)

-- The fence before a handoff: the store, or `none` if the revocation did not commit.
abbrev pub fence : Bool → Store → Option Entry → Option Store
fence db s none = some s
fence db s (some e) = if ltb 0 e.gen then revoke_gen db s (fence_key e) e.gen else some s

abbrev pub end_region : Arbiter → Bytes → Arbiter
end_region a root = record a { regions = keep_if (λ r. not (same r root)) a.regions }

abbrev pub hand_off : Arbiter → Bytes → ℕ → Option Store → Arbiter × Option ArbiterError
hand_off a root now none = (end_region a root, some revoke_failed)
hand_off a root now (some store) = (
  end_region
      (record a {
        table = release a.table root;
        cooldown = trip a.cooldown root now;
        store = store;
      })
      root,
  none,
)

-- `OnMutation` from the recall's answer on. A holder that has no stream is handed off too.
unfoldable pub finish_mutation :
    Bool → Arbiter → Bytes → Option Entry → Option RecallError → ℕ → Arbiter × Option ArbiterError
finish_mutation db a root revoked none now = hand_off a root now (fence db a.store revoked)
finish_mutation db a root revoked (some no_stream) now =
    hand_off a root now (fence db a.store revoked)
finish_mutation db a root revoked (some other_failure) now = (end_region a root, some recall_failed)

abbrev pub still_foreign : Bytes → Option (Bytes × Bytes) → Option ArbiterError
still_foreign contender none = none
still_foreign contender (some (owner, _)) =
    if same owner contender then none else some coalesced_recall_failed

-- The re-check of a waiter, once the recall that it waited for is over.
unfoldable pub wake_waiter : Arbiter → Bytes → Bytes → Option ArbiterError
wake_waiter a contender path = still_foreign contender (owner_of a.table path)

abbrev pub after_begin :
    Bool
    → (Arbiter → Arbiter)
    → Option RecallError
    → Bytes
    → Bytes
    → ℕ
    → Arbiter × Begin
    → Arbiter × Option ArbiterError
after_begin db meanwhile answer contender path now (a, proceed) = (a, none)
after_begin db meanwhile answer contender path now (a, wait root) =
    let b = meanwhile a in (b, wake_waiter b contender path)
after_begin db meanwhile answer contender path now (a, recall owner root revoked) =
    finish_mutation db (meanwhile a) root revoked answer now

-- `OnMutation`, with what the other calls do to the arbiter while the lock is free.
unfoldable pub on_mutation :
    Bool
    → (Arbiter → Arbiter)
    → Option RecallError
    → Arbiter
    → Bytes
    → Bytes
    → ℕ
    → Arbiter × Option ArbiterError
on_mutation db meanwhile answer a contender path now =
    after_begin db meanwhile answer contender path now (begin_mutation a contender path)

abbrev pub or_same : Store → Option Store → Store
or_same s none = s
or_same s (some t) = t

-- The revocations of `ReleaseSession`: a failed one is logged, and the loop goes on.
unfoldable pub revoke_all : (Entry → Bool) → Store → List Entry → Store
revoke_all db s [] = s
revoke_all db s (e ∷ es) = revoke_all db (or_same s (fence (db e) s (some e))) es

unfoldable pub release_session : (Entry → Bool) → Arbiter → Bytes → Arbiter
release_session db a session =
    let (drained, kept) = drain_owner a.table session in
    record a { table = kept; store = revoke_all db a.store drained }
