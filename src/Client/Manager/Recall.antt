-- ===== src/Client/Manager/Recall.antt =====
-- What a recall leaves to the client, and what is admitted meanwhile.
use g_mountie.Prelude.{
  ℕ, ◌+◌, ◌^◌, ◌<◌, ◌≡◌, inl, inr, refl, subst, Bool, true, false, ◌&&◌, not, none, List, [], ◌∷◌,
  ◌++◌, keep_if, Bytes, arith, Bool-cases, Option-cases,
}
use g_mountie.Paths.{contains, is_empty}
use g_mountie.Paths.Order.{contains-chain}
use g_mountie.Client.Log.{Op, BboltLog, load_hi_seq, append, replay}
use g_mountie.Client.Log.Laws.{WellFormed, replay-append}
use g_mountie.Client.Overlay.{Time, owns_full}
use g_mountie.Client.Flush.{Coordinator}
use g_mountie.Client.Manager.{
  GrantState, Manager, covers, covering_grant, is_delegated, is_write_delegated, gen_for,
  mark_draining, end_draining, recalled, drop_grants, on_recall, is_rename, record_op,
}

-- A grant that a recall spares covers no path of the recalled root.
spared_elsewhere :
    (root path : Bytes) (g : GrantState)
    → recalled root g ≡ false
    → contains root path ≡ true
    → covers path g ≡ false
spared_elsewhere root path g s c = elim (Bool-cases (contains g.granted_root path)) [
  | inl d ↦ ground (arith, s, contains-chain root g.granted_root path c d)
  | inr d ↦ ground (arith, d)
]

drop_grants_gone :
    (root path : Bytes) (l : List (Bytes × GrantState))
    → contains root path ≡ true
    → covering_grant (keep_if (λ e. not (recalled root e.1)) l) path ≡ none
unfolding covering_grant
drop_grants_gone root path [] c = refl
drop_grants_gone root path ((k, g) ∷ l) c = elim (Bool-cases (recalled root g)) [
  | inl y ↦ rw y (drop_grants_gone root path l c)
  | inr n ↦ rw (n, spared_elsewhere root path g n c) (drop_grants_gone root path l c)
]

end_draining_grants : (m : Manager) (root : Bytes) → (end_draining m root).grants ≡ m.grants
unfolding end_draining
end_draining_grants m root = ground arith

dropped :
    (root path : Bytes) (m : Manager)
    → contains root path ≡ true
    → is_delegated (drop_grants m root) path ≡ false
unfolding is_delegated drop_grants
dropped root path m c = rw (drop_grants_gone root path m.grants c) refl

-- The end of a drain reads no grant.
undelegated :
    (root path : Bytes) (m : Manager)
    → is_delegated m path ≡ false
    → is_delegated (end_draining m root) path ≡ false
unfolding is_delegated
undelegated root path m h = rw (end_draining_grants m root) h

-- A recall is acked where its flush succeeded, and only there. A recall that is acked leaves no path
-- of the root delegated, whatever was granted during its flush, if no call grants the path
-- between the drop of the grants and the end of the drain; a recall whose flush failed is not
-- acked, and leaves the grants as they then were.
pub on_recall_drops :
    (meanwhile after : Manager → Manager) (flushed : Bool) (m : Manager) (root path : Bytes)
    → contains root path ≡ true
    → ((x : Manager) → is_delegated x path ≡ false → is_delegated (after x) path ≡ false)
    → let (b, acked) = on_recall meanwhile after flushed m root in
      (acked ≡ flushed)
      × (flushed ≡ true → is_delegated b path ≡ false)
      × (flushed ≡ false → b.grants ≡ (meanwhile (mark_draining m root)).grants)
unfolding on_recall
on_recall_drops meanwhile after true m root path c h = (
  refl,
  λ _. undelegated root path (after (drop_grants (meanwhile (mark_draining m root)) root)) (
      h (drop_grants (meanwhile (mark_draining m root)) root)
        (dropped root path (meanwhile (mark_draining m root)) c)),
  λ q. absurd (ground (arith, q)),
)
on_recall_drops meanwhile after false m root path c h = (
  refl,
  λ q. absurd (ground (arith, q)),
  λ _. end_draining_grants (meanwhile (mark_draining m root)) root,
)

-- An operation that is recorded, in a log that is in good order and has numbers left, was
-- admitted by a grant that covers its path; it comes last in the log, stamped with the generation
-- of that grant.
pub record_op-stamped :
    (m : Manager) (c d : Coordinator) (op : Op) (now : Time)
    → WellFormed c.log
    → load_hi_seq c.log.hi_seq + 2 < 2 ^ 64
    → record_op true m c op now ≡ (d, none)
    → (is_write_delegated m op.path ≡ true)
      × ((seq : ℕ) × (replay d.log 0
            ≡ replay c.log 0 ++ record op { gen = gen_for m op.path; seq = seq } ∷ []))
unfolding record_op
record_op-stamped m c d op now h room e =
    let stamped : Op = record op { gen = gen_for m op.path } in
    elim (Bool-cases (is_write_delegated m op.path)) [
      | inr n ↦ absurd (ground (arith, rw n at e))
      | inl y ↦
          elim (Bool-cases (not (is_empty op.new_path) && not (is_write_delegated m op.new_path))) [
            | inl z ↦ absurd (ground (arith, rw (y, z) at e))
            | inr z ↦ elim (Bool-cases (is_rename op.kind && not (owns_full c.overlay op.path))) [
              | inl u ↦ absurd (ground (arith, rw (y, z, u) at e))
              | inr u ↦ elim (Option-cases (append true c.log stamped)) [
                | inl v ↦ absurd (ground (arith, rw (y, z, u, v) at e))
                | inr ((seq, log), v) ↦
                    let same_log : log ≡ d.log = ground (arith, rw (y, z, u, v) at e) in
                    let (reads, _, _) =
                      replay-append c.log log stamped 0 seq h (omega arith) room v in
                    (
                      y,
                      (
                        seq,
                        subst
                            (λ (l : BboltLog).
                              replay l 0 ≡ replay c.log 0 ++ record stamped { seq = seq } ∷ [])
                            same_log reads,
                      ),
                    )
              ]
            ]
          ]
    ]
