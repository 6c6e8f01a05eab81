-- ===== src/Apply/Fencing.antt =====
-- The fence, from the handoff on the server to the replay of the superseded client.
use g_mountie.Prelude.{
  ℕ, ◌<◌, ◌≡◌, inl, inr, refl, sym, subst, ◌∙◌, Bool, true, Option, none, some, List, [], ◌∷◌,
  lt→ltb, All, arith, Bool-cases, Option-cases, Bytes,
}
use g_mountie.Paths.{is_empty}
use g_mountie.Watermark.{Key, Store, get_record, has_gen, advance}
use g_mountie.Delegation.Table.{Entry}
use g_mountie.Delegation.Arbiter.{Arbiter, RecallError, fence_key, finish_mutation}
use g_mountie.Delegation.Arbiter.Handoff.{Fenced, finish_hands_off}
use g_mountie.Apply.FileSystem.{Caller, FileSystem}
use g_mountie.Apply.Ops.{WalOp, World}
use g_mountie.Apply.Stream.{
  Progress, is_fenced, is_revoked_gen, run, conclude, key_of, serve, apply,
}
use g_mountie.Apply.Rounds.{run_fenced}

-- Every operation of the stream was deferred under the generation of the entry.
abbrev pub UnderGen : Entry → List WalOp → Type 0
UnderGen e ops = All (λ op. op.gen ≡ e.gen) ops

All-fenced :
    (e : Entry) (revoked : List ℕ) (ops : List WalOp)
    → 0 < e.gen
    → has_gen e.gen revoked ≡ true
    → UnderGen e ops
    → All (λ op. is_fenced revoked op ≡ true) ops
unfolding is_revoked_gen
All-fenced e revoked [] p h u = tt
All-fenced e revoked (op ∷ ops) p h u =
    (rw (u.0, lt→ltb 0 e.gen p) h, All-fenced e revoked ops p h u.1)

module _ {W : Type 0} (api : FileSystem W) (subscribers : Bool) where
  conclude_world :
      (eof db : Bool) (store : Store) (key : Key) (p : Progress W)
      → (conclude eof db store key p).0 ≡ p.world
  unfolding conclude
  conclude_world eof db store key p = elim (Option-cases (advance db store key p.committed)) [
    | inl n ↦ ground (arith, n)
    | inr (t, s) ↦ ground (arith, s)
  ]

  -- A stream that is bound to an entry's key, and whose operations all carry the entry's
  -- generation, which is revoked, leaves the filesystem and the events as they were, however the
  -- stream ends.
  pub apply-Fenced :
      (session configured readable eof db : Bool) (bind : Bytes → Option Caller → Option Bytes)
      (w : World W) (store : Store) (e : Entry) (op : WalOp) (ops : List WalOp)
      → 0 < e.gen
      → Fenced store e
      → UnderGen e (op ∷ ops)
      → bind op.volume op.caller ≡ some e.principal
      → key_of op e.principal ≡ fence_key e
      → (apply api subscribers session configured bind readable eof db w store (op ∷ ops)).0 ≡ w
  unfolding apply
  apply-Fenced session configured readable eof db bind w store e op ops p f u b k =
      elim (Bool-cases session) [
        | inr x ↦ rw x refl
        | inl x ↦ elim (Bool-cases configured) [
          | inr y ↦ rw (x, y) refl
          | inl y ↦ elim (Bool-cases (is_empty op.volume)) [
            | inl z ↦ rw (x, y, z) refl
            | inr z ↦ rw (x, y, z, b) served
          ]
        ]
      ]
    where
      key : Key
      key = key_of op e.principal

      fenced : has_gen e.gen (get_record store key).revoked_gens ≡ true
      fenced = subst (λ x. has_gen e.gen (get_record store x).revoked_gens ≡ true) (sym k) f

      served : (serve api subscribers readable eof db w store op ops (some e.principal)).0 ≡ w
      served = elim (Bool-cases readable) [
        | inr n ↦ rw n refl
        | inl y ↦ rw y (
            conclude_world eof db store key (
              run api subscribers w (get_record store key).watermark
                (get_record store key).revoked_gens (op ∷ ops))
            ∙ (run_fenced api subscribers w (get_record store key).watermark
                (get_record store key).revoked_gens (op ∷ ops)
                (All-fenced e (get_record store key).revoked_gens (op ∷ ops) p fenced u)).0)
      ]

  -- A mutation that is let through after a recall whose captured entry has a generation fences
  -- the holder that it cut off: a stream that is bound to the entry's key and whose operations
  -- all carry its generation leaves the filesystem and the events as they are.
  pub handoff_stops_replay :
      (committed : Bool) (a : Arbiter) (root : Bytes) (e : Entry) (answer : Option RecallError)
      (now : ℕ) (session configured readable eof db : Bool)
      (bind : Bytes → Option Caller → Option Bytes) (w : World W) (op : WalOp) (ops : List WalOp)
      → (finish_mutation committed a root (some e) answer now).1 ≡ none
      → 0 < e.gen
      → UnderGen e (op ∷ ops)
      → bind op.volume op.caller ≡ some e.principal
      → key_of op e.principal ≡ fence_key e
      → let b = (finish_mutation committed a root (some e) answer now).0 in
        (apply api subscribers session configured bind readable eof db w b.store (op ∷ ops)).0 ≡ w
  handoff_stops_replay committed a root e answer now session configured readable eof db bind w op
        ops h p u b k =
      apply-Fenced session configured readable eof db bind w
        (finish_mutation committed a root (some e) answer now).0.store e op ops p
        (finish_hands_off committed a root e answer now now h p).0 u b k
