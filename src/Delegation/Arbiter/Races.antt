-- ===== src/Delegation/Arbiter/Races.antt =====
-- What the mutex of the arbiter does not cover: calls between the two halves of `OnMutation`.
use g_mountie.Prelude.{
  ℕ, ◌+◌, ◌^◌, ◌≤◌, ◌<◌, ◌≡◌, ◌≢◌, inl, inr, refl, ap, sym, subst, ◌∙◌, Bool, true, false, none,
  some, [], lt→ltb, arith, Bool-cases, Option-cases, Bytes,
}
use g_mountie.Paths.{is_empty}
use g_mountie.Watermark.{Record, Store, get_record, has_gen, next_gen, revoke_gen}
use g_mountie.Watermark.Laws.{next_gen_fresh, revoke_gen_keeps, revoke_gen_total}
use g_mountie.Delegation.Table.{Entry, grant, owner_of, entry_for_root}
use g_mountie.Delegation.Table.Order.{Yields, owner_of_most_specific}
use g_mountie.Delegation.Cooldown.{CooldownConfig, sweep, cooling}
use g_mountie.Delegation.Arbiter.{Arbiter, new_arbiter, fence_key, request, finish_mutation}
use g_mountie.Delegation.Arbiter.Requests.{Reach, Reach-Ordered, request_grants}
use g_mountie.Delegation.Arbiter.Handoff.{entry_for_root-release}
use g_mountie.Prelude.{All}

-- Whatever calls have interleaved since the server started, the owner that answers for a path is
-- the one of the most specific delegation: every other entry that covers the path belongs to the
-- same owner or contains the root that is answered.
pub reached_owner_of :
    (cfg : CooldownConfig) (store : Store) (a : Arbiter) (path owner root : Bytes)
    → Reach (new_arbiter cfg store) a
    → owner_of a.table path ≡ some (owner, root)
    → All (Yields path owner root) a.table
reached_owner_of cfg store a path owner root r q =
    owner_of_most_specific a.table path owner root (Reach-Ordered r tt) q

-- The store after a request that is granted, for the key of the request.
request_store :
    (db : Bool) (a : Arbiter) (e : Entry) (now : ℕ)
    → (get_record a.store (fence_key e)).gen_hi + 1 < 2 ^ 64
    → (request db a e now).1.granted_root ≢ []
    → let (b, g) = request db a e now in
      get_record b.store (fence_key e)
      ≡ record (get_record a.store (fence_key e)) { gen_hi = g.gen }
unfolding request
request_store db a e now room h = elim (Bool-cases (is_empty e.root)) [
  | inl z ↦ absurd (h (rw z))
  | inr nz ↦ elim (Bool-cases (cooling (sweep a.cooldown now) e.root now)) [
    | inl c ↦ absurd (h (rw (nz, c)))
    | inr w ↦ elim (Option-cases (next_gen db a.store (fence_key e))) [
      | inl z ↦ absurd (h (rw (nz, w, z)))
      | inr ((gen, s), r) ↦ elim (Option-cases (grant a.table (record e { gen = gen }))) [
        | inl z ↦ absurd (h (rw (nz, w, r, z)))
        | inr (g, q) ↦ rw (nz, w, r, q) (next_gen_fresh db a.store s (fence_key e) gen room r).1
      ]
    ]
  ]
]

-- The fence of one generation revokes no other generation of its key.
finish_spares :
    (a : Arbiter) (e : Entry) (gen now : ℕ)
    → 0 < e.gen
    → gen ≢ e.gen
    → let c = finish_mutation true a e.root (some e) none now in
      (c.1 ≡ none)
      × (entry_for_root c.0.table e.root ≡ none)
      × (has_gen gen (get_record c.0.store (fence_key e)).revoked_gens
          ≡ has_gen gen (get_record a.store (fence_key e)).revoked_gens)
unfolding finish_mutation
finish_spares a e gen now p n = elim (Option-cases (revoke_gen true a.store (fence_key e) e.gen)) [
  | inl z ↦ absurd (revoke_gen_total a.store (fence_key e) e.gen z)
  | inr (t, r) ↦
      rw (lt→ltb 0 e.gen p, r)
        (
          refl,
          entry_for_root-release a.table e.root,
          ground (arith, revoke_gen_keeps true a.store t (fence_key e) e.gen gen r),
        )
]

-- A root is being recalled, and entry `e`, with a generation that the store has issued, was
-- captured for it. Before the recall is over, a request of the same client for the same root is
-- granted, with a generation that is not revoked, while the counter of the key has room. When the
-- recall then succeeds, the handoff drops the new delegation with the old one, and revokes only
-- the old generation: the client holds a delegation that the table does not list and that no
-- fence stops.
pub regrant_lost :
    (a : Arbiter) (e f : Entry) (now later : ℕ)
    → 0 < e.gen
    → e.gen ≤ (get_record a.store (fence_key e)).gen_hi
    → (get_record a.store (fence_key e)).gen_hi + 1 < 2 ^ 64
    → fence_key f ≡ fence_key e
    → f.root ≡ e.root
    → (request true a f now).1.granted_root ≢ []
    → has_gen (request true a f now).1.gen (get_record a.store (fence_key e)).revoked_gens ≡ false
    → let (b, g) = request true a f now in
      let c = finish_mutation true b e.root (some e) none later in
      (c.1 ≡ none)
      × (entry_for_root c.0.table g.granted_root ≡ none)
      × (has_gen g.gen (get_record c.0.store (fence_key f)).revoked_gens ≡ false)
regrant_lost a e f now later p hi room k r h fresh =
    let free = subst (λ x. (get_record a.store x).gen_hi + 1 < 2 ^ 64) (sym k) room in
    let granted = request_grants true a f now [] free h in
    let stored = request_store true a f now free h in
    let b = (request true a f now).0 in
    let gen = (request true a f now).1.gen in
    let c = (finish_mutation true b e.root (some e) none later).0 in
    let above = subst (λ x. (get_record a.store x).gen_hi < gen) k granted.0 in
    let spared = finish_spares b e gen later p (λ q. omega arith) in
    (
      spared.0,
      subst (λ x. entry_for_root c.table x ≡ none) (sym (granted.2 ∙ r)) spared.1,
      subst (λ x. has_gen gen (get_record c.store x).revoked_gens ≡ false) (sym k)
          (spared.2
            ∙ ap (λ (x : Record). has_gen gen x.revoked_gens)
                (subst (λ x. get_record b.store x ≡ record (get_record a.store x) { gen_hi = gen })
                  k stored)
            ∙ fresh),
    )
