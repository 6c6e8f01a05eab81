-- ===== src/Apply/Tests.antt =====
-- A filesystem of directories, as the list of their paths, streams on it, and the theorems at them.
use g_mountie.Prelude.{
  ℕ, ◌≤◌, ◌<◌, ◌≡◌, ◌≢◌, refl, arith, Bool, true, false, Option, none, some, List, [], ◌∷◌, any,
  if◌then◌else◌, Bytes, Bytes-discrete, ℕ_discrete, same, keep_if, not, get, put,
}
use g_mountie.Paths.{is_empty}
use g_mountie.Fserr.{fs_ok, enoent, from_errno, to_errno, find_error}
use g_mountie.Watermark.{Store, key_bytes, get_record, put_record, advance, revoke_gen}
use g_mountie.Delegation.Table.{Entry}
use g_mountie.Delegation.Cooldown.{cooldown_config_default}
use g_mountie.Delegation.Arbiter.{Arbiter, new_arbiter, finish_mutation}
use g_mountie.Apply.FileSystem.{Attr, Caller, failed, FileSystem}
use g_mountie.Apply.Ops.{
  OpBody, WalOp, World, emit, emit_mutated_attr, stat_attrs_and_emit, idempotent_skip, apply_wal_op,
}
use g_mountie.Apply.Stream.{
  ApplyAck, ack, refused, recv_failed, verdict, is_revoked_gen, run, conclude, key_of, apply,
}
use g_mountie.Apply.Rounds.{run_failed}
use g_mountie.Apply.Replay.{apply_again, ack_durable}
use g_mountie.Apply.Fencing.{apply-Fenced, handoff_stops_replay}

abbrev pub Dirs : Type 0
Dirs = List Bytes

abbrev dir_attr : Attr
dir_attr = record {
  mode = 16877;
  uid = 0;
  gid = 0;
  size = 1;
  mtime = 0;
  mtimensec = 0;
  ctime = 0;
  ctimensec = 0;
}

abbrev has : Dirs → Bytes → Bool
has w path = any (λ p. same p path) w

abbrev without : Dirs → Bytes → Dirs
without w path = keep_if (λ p. not (same p path)) w

abbrev pub dirs : FileSystem Dirs
dirs = record {
  File = Unit;
  get_attr = λ w path _. if has w path then (0, some dir_attr) else (2, none);
  mkdir = λ w path _ _. if has w path then (w, 17) else (path ∷ w, 0);
  rmdir = λ w path _. if has w path then (without w path, 0) else (w, 2);
  unlink = λ w path _. if has w path then (without w path, 0) else (w, 2);
  rename = λ w old new _. if has w old then (new ∷ without w old, 0) else (w, 2);
  symlink = λ w _ _ _. (w, 38);
  set_xattr = λ w _ _ _ _ _. (w, 95);
  remove_xattr = λ w _ _ _. (w, 95);
  truncate = λ w _ _ _. (w, 21);
  chmod = λ w _ _ _. (w, 0);
  chown = λ w _ _ _ _. (w, 0);
  utimens = λ w _ _ _ _. (w, 0);
  create = λ w _ _ _ _. (w, failed 38);
  open_file = λ w _ _ _. (w, failed 21);
  write = λ w _ _ _. (w, 0, 9);
  flush = λ w _. w;
  release = λ w _. w;
}

abbrev a : Bytes
a = 97 ∷ []

abbrev b : Bytes
b = 98 ∷ []

abbrev volume : Bytes
volume = 118 ∷ []

abbrev epoch : Bytes
epoch = 101 ∷ []

abbrev op : ℕ → OpBody → WalOp
op seq body = record {
  seq = seq;
  gen = 1;
  wal_epoch = epoch;
  volume = volume;
  caller = none;
  body = body;
}

-- Everybody is principal 1.
abbrev bind : Bytes → Option Caller → Option Bytes
bind v c = some (1 ∷ [])

abbrev pub bare : World Dirs
bare = record { fs = []; events = [] }

abbrev stream : List WalOp
stream = op 1 (OpBody.mkdir a 493) ∷ op 2 (OpBody.rename a b) ∷ []

abbrev renamed_world : World Dirs
renamed_world = record { fs = b ∷ []; events = [] }

abbrev stored : Store
stored = (1 ∷ 0 ∷ 118 ∷ 0 ∷ 101 ∷ [], record { watermark = 2; revoked_gens = []; gen_hi = 0 }) ∷ []

abbrev acked_2 : ApplyAck
acked_2 = record { watermark = 2; failed_seq = 0; fserr = fs_ok }

stream_applied :
    apply dirs false true true bind true true true bare [] stream
    ≡ (renamed_world, stored, ack acked_2)
unfolding apply run verdict apply_wal_op emit emit_mutated_attr stat_attrs_and_emit conclude advance
    get_record put_record key_bytes get put is_empty is_revoked_gen Bytes-discrete ℕ_discrete
stream_applied = refl

apply_again_example :
    apply dirs false true true bind true true true renamed_world stored stream
    ≡ (renamed_world, stored, ack acked_2)
apply_again_example =
    apply_again dirs false bind bare renamed_world [] stored stream acked_2 stream_applied refl

ack_durable_example :
    ((get_record stored (key_of (op 1 (OpBody.mkdir a 493)) (1 ∷ []))).watermark ≡ 2)
    × ((get_record [] (key_of (op 1 (OpBody.mkdir a 493)) (1 ∷ []))).watermark ≤ 2)
ack_durable_example =
    ack_durable dirs false bind true true true bare renamed_world [] stored
      (op 1 (OpBody.mkdir a 493)) (op 2 (OpBody.rename a b) ∷ []) (1 ∷ []) acked_2 refl
      stream_applied

-- The rename fails where its source is missing.
run_failed_example :
    ((run dirs false bare 0 [] (op 2 (OpBody.rename a b) ∷ [])).committed < 2) × (enoent ≢ fs_ok)
run_failed_example = run_failed dirs false bare 0 [] (op 2 (OpBody.rename a b) ∷ []) 2 enoent (
    unfold run in
    unfold verdict in
    unfold idempotent_skip in
    unfold apply_wal_op in
    unfold is_revoked_gen in unfold from_errno in unfold find_error in unfold to_errno in refl)

abbrev holder : Entry
holder = record {
  owner = 49 ∷ [];
  root = a;
  principal = 1 ∷ [];
  volume = volume;
  epoch = epoch;
  gen = 1;
}

abbrev fenced_store : Store
fenced_store =
    (1 ∷ 0 ∷ 118 ∷ 0 ∷ 101 ∷ [], record { watermark = 0; revoked_gens = 1 ∷ []; gen_hi = 1 }) ∷ []

apply-Fenced_example :
    (apply dirs true true true bind true true true bare fenced_store stream).0 ≡ bare
apply-Fenced_example =
    apply-Fenced dirs true true true true true true bind bare fenced_store holder
      (op 1 (OpBody.mkdir a 493)) (op 2 (OpBody.rename a b) ∷ []) (omega arith)
      (unfold get_record in
        unfold key_bytes in unfold get in unfold Bytes-discrete in unfold ℕ_discrete in refl)
      (refl, (refl, tt)) refl refl

abbrev before_handoff : Arbiter
before_handoff = record (new_arbiter cooldown_config_default []) {
  table = holder ∷ [];
  regions = a ∷ [];
}

handoff_stops_replay_example :
    let c = (finish_mutation true before_handoff a (some holder) none 5).0 in
    (apply dirs true true true bind true true true bare c.store stream).0 ≡ bare
handoff_stops_replay_example =
    handoff_stops_replay dirs true true before_handoff a holder none 5 true true true true true bind
      bare (op 1 (OpBody.mkdir a 493)) (op 2 (OpBody.rename a b) ∷ [])
      (unfold finish_mutation in
        unfold revoke_gen in
        unfold get_record in
        unfold key_bytes in unfold get in unfold Bytes-discrete in unfold ℕ_discrete in refl)
      (omega arith) (refl, (refl, tt)) refl refl

-- A stream that breaks off after its rename was applied records nothing; sent again, the rename fails.
abbrev with_a : World Dirs
with_a = record { fs = a ∷ []; events = [] }

abbrev rename_only : List WalOp
rename_only = op 1 (OpBody.rename a b) ∷ []

rename_reapplied :
    (apply dirs false true true bind true false true with_a [] rename_only
      ≡ (renamed_world, [], refused recv_failed))
    × ((apply dirs false true true bind true true true renamed_world [] rename_only).2
        ≡ ack (record { watermark = 0; failed_seq = 1; fserr = enoent }))
unfolding apply run verdict idempotent_skip apply_wal_op emit emit_mutated_attr stat_attrs_and_emit
    conclude advance get_record put_record key_bytes get put is_empty is_revoked_gen from_errno
    find_error to_errno Bytes-discrete ℕ_discrete
rename_reapplied = (refl, refl)
