-- ===== src/Delegation/Arbiter/Requests.antt =====
-- What a request for a delegation is answered, and the order of the table over any run.
use g_mountie.Prelude.{
  ℕ, ◌+◌, ◌^◌, ◌<◌, ◌≡◌, ◌≢◌, inl, inr, refl, ap, Bool, true, false, Option, none, some, List, [],
  arith, Bool-cases, Option-cases, Bytes,
}
use g_mountie.Paths.{contains, is_empty}
use g_mountie.Watermark.{Record, get_record, next_gen}
use g_mountie.Watermark.Laws.{next_gen_fresh}
use g_mountie.Delegation.Table.{Entry, Granted, grant, owner_of}
use g_mountie.Delegation.Table.Order.{Ordered, grant-Ordered, release-Ordered, drain_owner-Ordered}
use g_mountie.Delegation.Table.Ownership.{carved, owner_name, grant_owns}
use g_mountie.Delegation.Cooldown.{sweep, cooling}
use g_mountie.Delegation.Arbiter.{
  Arbiter, RecallError, fence_key, retry, request, begin_mutation, finish_mutation, release_session,
}

grant_root : (t : List Entry) (e : Entry) {g : Granted} → grant t e ≡ some g → g.root ≡ e.root
unfolding grant
grant_root t e h = ground arith

-- While the counter of its key has room, a grant carries a generation that the store had never issued for its key and has now recorded;
-- its root is the one asked for, and each path under it that is not carved out belongs from now on
-- to the requester. The root was not cold.
pub request_grants :
    (db : Bool) (a : Arbiter) (e : Entry) (now : ℕ) (path : Bytes)
    → (get_record a.store (fence_key e)).gen_hi + 1 < 2 ^ 64
    → (request db a e now).1.granted_root ≢ []
    → let (b, g) = request db a e now in
      ((get_record a.store (fence_key e)).gen_hi < g.gen)
      × ((get_record b.store (fence_key e)).gen_hi ≡ g.gen)
      × (g.granted_root ≡ e.root)
      × (cooling (sweep a.cooldown now) e.root now ≡ false)
      × (contains e.root path ≡ true
          → carved g.excluded_paths path ≡ false
          → owner_name b.table path ≡ some e.owner)
unfolding request
request_grants db a e now path room h = elim (Bool-cases (is_empty e.root)) [
  | inl z ↦ absurd (h (rw z))
  | inr nz ↦ elim (Bool-cases (cooling (sweep a.cooldown now) e.root now)) [
    | inl c ↦ absurd (h (rw (nz, c)))
    | inr w ↦ elim (Option-cases (next_gen db a.store (fence_key e))) [
      | inl z ↦ absurd (h (rw (nz, w, z)))
      | inr ((gen, s), r) ↦ elim (Option-cases (grant a.table (record e { gen = gen }))) [
        | inl z ↦ absurd (h (rw (nz, w, r, z)))
        | inr (g, q) ↦
            let (above, stored) = next_gen_fresh db a.store s (fence_key e) gen room r in
            rw (nz, w, r, q)
              (
                above,
                ap (λ (x : Record). x.gen_hi) stored,
                grant_root a.table (record e { gen = gen }) q,
                refl,
                grant_owns a.table (record e { gen = gen }) path q,
              )
      ]
    ]
  ]
]

-- A denial of a root that is not empty leaves the table and the recalls in flight as they were,
-- and asks for a retry after the base window.
pub request_denies :
    (db : Bool) (a : Arbiter) (e : Entry) (now : ℕ)
    → (request db a e now).1.granted_root ≡ []
    → e.root ≢ []
    → ((request db a e now).0.table ≡ a.table)
      × ((request db a e now).0.regions ≡ a.regions)
      × ((request db a e now).1 ≡ retry a)
unfolding request sweep
request_denies db a e now h n = elim (Option-cases (next_gen db a.store (fence_key e))) [
  | inl z ↦ ground (arith, z)
  | inr ((gen, s), r) ↦ elim (Option-cases (grant a.table (record e { gen = gen }))) [
    | inl z ↦ ground (arith, z, r)
    | inr (g, q) ↦ ground (arith, r, q, grant_root a.table (record e { gen = gen }) q)
  ]
]

-- What can happen to the arbiter: the critical sections of its calls, in any order.
pub data Step (a : Arbiter) : Arbiter → Type 0 where
  requests : (db : Bool) (e : Entry) (now : ℕ) → Step a (request db a e now).0
  begins : (contender path : Bytes) → Step a (begin_mutation a contender path).0
  finishes :
      (db : Bool) (root : Bytes) (revoked : Option Entry) (answer : Option RecallError) (now : ℕ)
      → Step a (finish_mutation db a root revoked answer now).0
  reaps : (db : Entry → Bool) (session : Bytes) → Step a (release_session db a session)

pub data Reach (a : Arbiter) : Arbiter → Type 0 where
  here : Reach a a
  next : {b c : Arbiter} → Reach a b → Step b c → Reach a c

request-Ordered :
    (db : Bool) (a : Arbiter) (e : Entry) (now : ℕ)
    → Ordered a.table
    → Ordered (request db a e now).0.table
unfolding request
request-Ordered db a e now h = elim (Option-cases (next_gen db a.store (fence_key e))) [
  | inl z ↦ ground (arith, z, h)
  | inr ((gen, s), r) ↦ elim (Option-cases (grant a.table (record e { gen = gen }))) [
    | inl z ↦ ground (arith, z, r, h)
    | inr (g, q) ↦ ground (arith, r, q, h, grant-Ordered a.table (record e { gen = gen }) q h)
  ]
]

begin-Ordered :
    (a : Arbiter) (contender path : Bytes)
    → Ordered a.table
    → Ordered (begin_mutation a contender path).0.table
unfolding begin_mutation
begin-Ordered a contender path h = elim (Option-cases (owner_of a.table path)) [
  | inl n ↦ rw n h
  | inr (p, s) ↦ rw s (ground (arith, h))
]

finish-Ordered :
    (db : Bool) (a : Arbiter) (root : Bytes) (revoked : Option Entry) (answer : Option RecallError)
    (now : ℕ)
    → Ordered a.table
    → Ordered (finish_mutation db a root revoked answer now).0.table
unfolding finish_mutation
finish-Ordered db a root revoked none now h = ground (arith, h, release-Ordered a.table root h)
finish-Ordered db a root revoked (some RecallError.no_stream) now h =
    ground (arith, h, release-Ordered a.table root h)
finish-Ordered db a root revoked (some RecallError.other_failure) now h = h

Step-Ordered : {a b : Arbiter} → Step a b → Ordered a.table → Ordered b.table
unfolding release_session
Step-Ordered {a} (requests db e now) h = request-Ordered db a e now h
Step-Ordered {a} (begins contender path) h = begin-Ordered a contender path h
Step-Ordered {a} (finishes db root revoked answer now) h =
    finish-Ordered db a root revoked answer now h
Step-Ordered {a} (reaps db session) h = drain_owner-Ordered a.table session h

-- In whatever order the calls interleave, an entry of the table is covered by an earlier one only
-- of its own owner.
pub Reach-Ordered : {a b : Arbiter} → Reach a b → Ordered a.table → Ordered b.table
Reach-Ordered here h = h
Reach-Ordered (next r s) h = Step-Ordered s (Reach-Ordered r h)
