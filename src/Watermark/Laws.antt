-- ===== src/Watermark/Laws.antt =====
-- What the store promises, for the record of each key.
use g_mountie.Prelude.{
  ℕ, ◌+◌, ◌%◌, ◌^◌, ◌<◌, ◌≡◌, ◌≢◌, ◌⊎◌, inl, inr, refl, Bool, true, none, some, List, [], ◌∷◌, ◌++◌,
  ◌||◌, ◌==◌, arith, All, Bytes, Bytes-discrete, get-put_self, get-put_ne, max,
}
use g_mountie.Watermark.{
  Key, Record, Store, key_bytes, get_record, put_record, advance, has_gen, revoke_gen, next_gen,
}

-- No byte is NUL.
abbrev pub NoNul : Bytes → Type 0
NoNul b = All (λ c. c ≢ 0) b

cut_at_nul : (a b r s : Bytes) → NoNul a → NoNul b → a ++ 0 ∷ r ≡ b ++ 0 ∷ s → (a ≡ b) × (r ≡ s)
cut_at_nul [] [] r s ha hb e = (refl, ground arith)
cut_at_nul [] (y ∷ b) r s ha hb e = ground arith
cut_at_nul (x ∷ a) [] r s ha hb e = ground arith
cut_at_nul (x ∷ a) (y ∷ b) r s ha hb e = ground (arith, cut_at_nul a b r s ha.1 hb.1)

-- Keys whose identity and volume hold no NUL byte have the same database key only if they are equal.
pub key_bytes-injective :
    (k j : Key)
    → NoNul k.identity × NoNul k.volume
    → NoNul j.identity × NoNul j.volume
    → key_bytes k ≡ key_bytes j
    → k ≡ j
unfolding key_bytes
key_bytes-injective k j hk hj e =
    let (i, rest) = cut_at_nul k.identity j.identity _ _ hk.0 hj.0 e in
    let (v, ep) = cut_at_nul k.volume j.volume _ _ hk.1 hj.1 rest in ground arith

pub get_record-put_self : (s : Store) (k : Key) (r : Record) → get_record (put_record s k r) k ≡ r
unfolding get_record put_record
get_record-put_self s k r = rw (get-put_self Bytes-discrete s (key_bytes k) r)

pub get_record-put_ne :
    (s : Store) (k j : Key) (r : Record)
    → key_bytes k ≢ key_bytes j
    → get_record (put_record s k r) j ≡ get_record s j
unfolding get_record put_record
get_record-put_ne s k j r h = rw (get-put_ne Bytes-discrete s (key_bytes k) (key_bytes j) r h)

-- A watermark only rises: an advance that commits leaves the larger of the two values, and changes
-- neither the revoked generations nor the generation counter.
pub advance-max :
    (db : Bool) (s t : Store) (k : Key) (wm : ℕ)
    → advance db s k wm ≡ some t
    → get_record t k ≡ record (get_record s k) { watermark = max (get_record s k).watermark wm }
unfolding advance
advance-max db s t k wm h =
    ground (arith, get_record-put_self s k (record (get_record s k) { watermark = wm }))

has_gen-snoc :
    (g gen : ℕ) (gens : List ℕ) → has_gen g (gens ++ gen ∷ []) ≡ (has_gen g gens || gen == g)
has_gen-snoc g gen [] = ground arith
has_gen-snoc g gen (x ∷ gens) = ground (arith, has_gen-snoc g gen gens)

has_gen_self :
    (gen g : ℕ) (gens : List ℕ)
    → has_gen gen gens ≡ true
    → (has_gen g gens || gen == g) ≡ has_gen g gens
has_gen_self gen g [] h = ground arith
has_gen_self gen g (x ∷ gens) h = ground (arith, has_gen_self gen g gens)

-- A generation is revoked for good, and a second revocation changes nothing.
pub revoke_gen-has_gen :
    (db : Bool) (s t : Store) (k : Key) (gen : ℕ)
    → revoke_gen db s k gen ≡ some t
    → (has_gen gen (get_record t k).revoked_gens ≡ true) × (revoke_gen true t k gen ≡ some t)
unfolding revoke_gen
revoke_gen-has_gen db s t k gen h = ground (
  arith,
  has_gen-snoc gen gen (get_record s k).revoked_gens,
  get_record-put_self s k
      (record (get_record s k) { revoked_gens = (get_record s k).revoked_gens ++ gen ∷ [] }),
)

-- A revocation keeps every revoked generation, and the watermark and the counter.
pub revoke_gen_keeps :
    (db : Bool) (s t : Store) (k : Key) (gen g : ℕ)
    → revoke_gen db s k gen ≡ some t
    → (has_gen g (get_record t k).revoked_gens
        ≡ (has_gen g (get_record s k).revoked_gens || gen == g))
      × ((get_record t k).watermark ≡ (get_record s k).watermark)
      × ((get_record t k).gen_hi ≡ (get_record s k).gen_hi)
unfolding revoke_gen
revoke_gen_keeps db s t k gen g h = ground (
  arith,
  has_gen-snoc g gen (get_record s k).revoked_gens,
  has_gen_self gen g (get_record s k).revoked_gens,
  get_record-put_self s k
      (record (get_record s k) { revoked_gens = (get_record s k).revoked_gens ++ gen ∷ [] }),
)

-- While the counter of the key has room, a generation is new: it is above the counter that the store
-- held, which it becomes.
pub next_gen_fresh :
    (db : Bool) (s t : Store) (k : Key) (gen : ℕ)
    → (get_record s k).gen_hi + 1 < 2 ^ 64
    → next_gen db s k ≡ some (gen, t)
    → ((get_record s k).gen_hi < gen) × (get_record t k ≡ record (get_record s k) { gen_hi = gen })
unfolding next_gen
next_gen_fresh db s t k gen room h = ground (
  arith,
  get_record-put_self s k
      (record (get_record s k) { gen_hi = ((get_record s k).gen_hi + 1) % 2 ^ 64 }),
)

-- An operation on one key that commits does not change the record of a key with another database
-- key.
pub others_keep :
    (db : Bool) (s t : Store) (k j : Key) (n gen : ℕ)
    → key_bytes k ≢ key_bytes j
    → (advance db s k n ≡ some t)
      ⊎ (revoke_gen db s k n ≡ some t)
      ⊎ (next_gen db s k ≡ some (gen, t))
    → get_record t j ≡ get_record s j
unfolding advance revoke_gen next_gen
others_keep db s t k j n gen h o = ground (
  arith,
  get_record-put_ne s k j (record (get_record s k) { watermark = n }) h,
  get_record-put_ne s k j
      (record (get_record s k) { revoked_gens = (get_record s k).revoked_gens ++ n ∷ [] }) h,
  get_record-put_ne s k j
      (record (get_record s k) { gen_hi = ((get_record s k).gen_hi + 1) % 2 ^ 64 }) h,
)

get_record_of_key_bytes :
    (s : Store) (k j : Key) → key_bytes k ≡ key_bytes j → get_record s k ≡ get_record s j
unfolding get_record
get_record_of_key_bytes s k j e = rw e

-- A revocation, of whatever key, leaves every revoked generation revoked.
pub revoke_gen-has_gen_keeps :
    (db : Bool) (s t : Store) (k j : Key) (gen g : ℕ)
    → revoke_gen db s k gen ≡ some t
    → has_gen g (get_record s j).revoked_gens ≡ true
    → has_gen g (get_record t j).revoked_gens ≡ true
revoke_gen-has_gen_keeps db s t k j gen g r h = elim (Bytes-discrete (key_bytes k) (key_bytes j)) [
  | yes p ↦ ground (
    arith,
    revoke_gen_keeps db s t k gen g r,
    get_record_of_key_bytes s k j p,
    get_record_of_key_bytes t k j p,
  )
  | no n ↦ revoked_elsewhere db n r h
]
  where
    revoked_elsewhere :
        (db : Bool)
        → key_bytes k ≢ key_bytes j
        → revoke_gen db s k gen ≡ some t
        → has_gen g (get_record s j).revoked_gens ≡ true
        → has_gen g (get_record t j).revoked_gens ≡ true
    revoked_elsewhere db n r h = rw (others_keep db s t k j gen 0 n (inr (inl r))) h

pub revoke_gen_total : (s : Store) (k : Key) (gen : ℕ) → revoke_gen true s k gen ≢ none
unfolding revoke_gen
revoke_gen_total s k gen = λ h. ground arith
