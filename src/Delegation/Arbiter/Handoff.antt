-- ===== src/Delegation/Arbiter/Handoff.antt =====
-- What a contended mutation leaves behind.
use g_mountie.Prelude.{
  ℕ, ◌+◌, ◌<◌, ◌≡◌, ◌≢◌, ◌⊎◌, inl, inr, Bool-cases, refl, Bool, true, false, not, Option, none,
  some, List, [], ◌∷◌, ltb, lt→ltb, arith, any, All, keep_if, get, Option-cases, Bytes,
  Bytes-discrete, same,
}
use g_mountie.Watermark.{Store, get_record, has_gen, revoke_gen}
use g_mountie.Watermark.Laws.{revoke_gen-has_gen, revoke_gen-has_gen_keeps, revoke_gen_total}
use g_mountie.Delegation.Table.{Entry, owner_of, entry_for_root, release, drain_owner}
use g_mountie.Delegation.Cooldown.{next_window, cooling}
use g_mountie.Delegation.Cooldown.Windows.{cooling-trip}
use g_mountie.Delegation.Arbiter.{
  Arbiter, RecallError, no_stream, other_failure, ArbiterError, recall_failed, revoke_failed,
  fence_key, fence, begin_mutation, hand_off, finish_mutation, is_recalling, end_region,
  wake_waiter, on_mutation, revoke_all, release_session, or_same,
}

abbrev pub Fenced : Store → Entry → Type 0
Fenced s e = has_gen e.gen (get_record s (fence_key e)).revoked_gens ≡ true

pub entry_for_root-release :
    (t : List Entry) (root : Bytes) → entry_for_root (release t root) root ≡ none
unfolding entry_for_root release
entry_for_root-release [] root = refl
entry_for_root-release (e ∷ t) root = ground (arith, entry_for_root-release t root)

not_recalling-end_region :
    (a : Arbiter) (root : Bytes) → is_recalling (end_region a root) root ≡ false
not_recalling-end_region a root = gone a.regions
  where
    gone : (l : List Bytes) → any (λ r. same r root) (keep_if (λ r. not (same r root)) l) ≡ false
    gone [] = refl
    gone (r ∷ l) = ground (arith, gone l)

hand_off_fences :
    (db : Bool) (a : Arbiter) (root : Bytes) (e : Entry) (now later : ℕ)
    → (hand_off a root now (fence db a.store (some e))).1 ≡ none
    → 0 < e.gen
    → let b = (hand_off a root now (fence db a.store (some e))).0 in
      Fenced b.store e
      × (entry_for_root b.table root ≡ none)
      × (cooling b.cooldown root later
          ≡ ltb later
              (now + next_window a.cooldown.cfg (get Bytes-discrete a.cooldown.entries root)))
      × (is_recalling b root ≡ false)
hand_off_fences db a root e now later h p =
    elim (Option-cases (revoke_gen db a.store (fence_key e) e.gen)) [
      | inl n ↦ absurd (ground arith)
      | inr (t, s) ↦
          rw (lt→ltb 0 e.gen p, s)
            (
              (revoke_gen-has_gen db a.store t (fence_key e) e.gen s).0,
              entry_for_root-release a.table root,
              cooling-trip a.cooldown root now later,
              not_recalling-end_region a root,
            )
    ]

-- A mutation that is let through after a recall was handed the root for good: the generation of
-- the captured entry, if it has one, is revoked in the store, no entry stands at the root, the
-- root is cold for its next window, and the recall is no longer in flight.
pub finish_hands_off :
    (db : Bool) (a : Arbiter) (root : Bytes) (e : Entry) (answer : Option RecallError)
    (now later : ℕ)
    → (finish_mutation db a root (some e) answer now).1 ≡ none
    → 0 < e.gen
    → let b = (finish_mutation db a root (some e) answer now).0 in
      Fenced b.store e
      × (entry_for_root b.table root ≡ none)
      × (cooling b.cooldown root later
          ≡ ltb later
              (now + next_window a.cooldown.cfg (get Bytes-discrete a.cooldown.entries root)))
      × (is_recalling b root ≡ false)
unfolding finish_mutation
finish_hands_off db a root e none now later h p = hand_off_fences db a root e now later h p
finish_hands_off db a root e (some no_stream) now later h p =
    hand_off_fences db a root e now later h p
finish_hands_off db a root e (some other_failure) now later h p = absurd (ground arith)

-- Why a mutation is refused: a recall that failed for another reason than a holder without a
-- stream, or a generation that could not be revoked.
abbrev pub Refused : Bool → Arbiter → Entry → Option RecallError → Type 0
Refused db a e answer =
    (answer ≡ some other_failure)
    ⊎ ((0 < e.gen) × (revoke_gen db a.store (fence_key e) e.gen ≡ none))

abbrev pub refusal : Option RecallError → ArbiterError
refusal none = revoke_failed
refusal (some no_stream) = revoke_failed
refusal (some other_failure) = recall_failed

-- A mutation whose path nobody else owns goes ahead at once and changes nothing.
pub on_mutation_free :
    (db : Bool) (meanwhile : Arbiter → Arbiter) (answer : Option RecallError) (a : Arbiter)
    (contender path : Bytes) (now : ℕ)
    → wake_waiter a contender path ≡ none
    → on_mutation db meanwhile answer a contender path now ≡ (a, none)
unfolding on_mutation begin_mutation wake_waiter
on_mutation_free db meanwhile answer a contender path now h =
    elim (Option-cases (owner_of a.table path)) [
      | inl n ↦ rw n
      | inr ((owner, root), s) ↦ rw s (ground (arith, s))
    ]

-- A mutation that meets a recall in flight gets through only if the path is then its own or free.
pub on_mutation_coalesces :
    (db : Bool) (meanwhile : Arbiter → Arbiter) (answer : Option RecallError) (a : Arbiter)
    (contender path owner root : Bytes) (now : ℕ)
    → owner_of a.table path ≡ some (owner, root)
    → owner ≢ contender
    → is_recalling a root ≡ true
    → on_mutation db meanwhile answer a contender path now
      ≡ (meanwhile a, wake_waiter (meanwhile a) contender path)
unfolding on_mutation begin_mutation
on_mutation_coalesces db meanwhile answer a contender path owner root now s n r =
    rw s (ground (arith, r))

fence_keeps :
    (db : Bool) (s : Store) (e f : Entry) → Fenced s f → Fenced (or_same s (fence db s (some e))) f
fence_keeps db s e f h = elim (Option-cases (revoke_gen db s (fence_key e) e.gen)) [
  | inl n ↦ rw n (ground (arith, h))
  | inr (t, r) ↦
      let kept = revoke_gen-has_gen_keeps db s t (fence_key e) (fence_key f) e.gen f.gen r h in
      rw r (ground (arith, kept, h))
]

revoke_all_keeps :
    (db : Entry → Bool) (s : Store) (es : List Entry) (f : Entry)
    → Fenced s f
    → Fenced (revoke_all db s es) f
unfolding revoke_all
revoke_all_keeps db s [] f h = h
revoke_all_keeps db s (e ∷ es) f h =
    revoke_all_keeps db (or_same s (fence (db e) s (some e))) es f (fence_keeps (db e) s e f h)

fence_fences : (s : Store) (e : Entry) → 0 < e.gen → Fenced (or_same s (fence true s (some e))) e
fence_fences s e p = elim (Option-cases (revoke_gen true s (fence_key e) e.gen)) [
  | inl n ↦ absurd (revoke_gen_total s (fence_key e) e.gen n)
  | inr (t, r) ↦ rw (lt→ltb 0 e.gen p, r) (revoke_gen-has_gen true s t (fence_key e) e.gen r).0
]

revoke_all_fences :
    (db : Entry → Bool) (s : Store) (es : List Entry)
    → All (λ e. db e ≡ true → 0 < e.gen → Fenced (revoke_all db s es) e) es
unfolding revoke_all
revoke_all_fences db s [] = tt
revoke_all_fences db s (e ∷ es) =
    (first, revoke_all_fences db (or_same s (fence (db e) s (some e))) es)
  where
    first :
        db e ≡ true → 0 < e.gen → Fenced (revoke_all db (or_same s (fence (db e) s (some e))) es) e
    first d p =
        revoke_all_keeps db (or_same s (fence (db e) s (some e))) es e (rw d (fence_fences s e p))

All-keep_if-false :
    (p : Entry → Bool) (t : List Entry) → All (λ e. p e ≡ false) (keep_if (λ e. not (p e)) t)
All-keep_if-false p [] = tt
All-keep_if-false p (e ∷ t) = ground (arith, All-keep_if-false p t)

-- A fact of the entries that a filter keeps, as one of all entries.
All-keep_if :
    (p : Entry → Bool) (P : Entry → Type 0) (t : List Entry)
    → All P (keep_if p t)
    → All (λ e. p e ≡ true → P e) t
All-keep_if p P [] h = tt
All-keep_if p P (e ∷ t) h = elim (Bool-cases (p e)) [
  | inl y ↦ let k = rw y at h in ((λ _. k.0), All-keep_if p P t k.1)
  | inr n ↦ ((λ y. absurd (ground (arith, n, y))), All-keep_if p P t (rw n at h))
]

-- A reaped session owns nothing any more, and of every entry that it owned before, the
-- generation, if it has one, is revoked, where the revocation commits.
pub release_session_fences :
    (db : Entry → Bool) (a : Arbiter) (session : Bytes)
    → let b = release_session db a session in
      All (λ e. same e.owner session ≡ false) b.table
      × All (λ e. same e.owner session ≡ true → db e ≡ true → 0 < e.gen → Fenced b.store e) a.table
unfolding release_session drain_owner
release_session_fences db a session =
    let owned = keep_if (λ e. same e.owner session) a.table in
    (
      All-keep_if-false (λ e. same e.owner session) a.table,
      All-keep_if (λ e. same e.owner session)
          (λ e. db e ≡ true → 0 < e.gen → Fenced (revoke_all db a.store owned) e) a.table
          (revoke_all_fences db a.store owned),
    )
