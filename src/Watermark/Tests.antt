-- ===== src/Watermark/Tests.antt =====
-- The store's operations on a store of one record, and the theorems at it.
use g_mountie.Prelude.{◌≡◌, refl, arith, true, some, [], ◌∷◌, Bytes-discrete, ℕ_discrete, get, put}
use g_mountie.Watermark.{Key, Record, Store, key_bytes, get_record, put_record, advance}
use g_mountie.Watermark.Laws.{key_bytes-injective}

abbrev key : Key
key = record { identity = 1 ∷ []; volume = 2 ∷ []; epoch = 3 ∷ [] }

abbrev other : Key
other = record { identity = 1 ∷ []; volume = 2 ∷ []; epoch = 4 ∷ [] }

abbrev kept : Record → Store
kept r = (1 ∷ 0 ∷ 2 ∷ 0 ∷ 3 ∷ [], r) ∷ []

abbrev old : Store
old = kept (record { watermark = 7; revoked_gens = 1 ∷ []; gen_hi = 2 })

abbrev advanced : Store
advanced = kept (record { watermark = 9; revoked_gens = 1 ∷ []; gen_hi = 2 })

abbrev issued : Store
issued = kept (record { watermark = 7; revoked_gens = 1 ∷ []; gen_hi = 3 })

key_bytes-injective_example : key ≡ key
key_bytes-injective_example =
    key_bytes-injective key key ((λ q. ground (arith, q), tt), (λ q. ground (arith, q), tt))
      ((λ q. ground (arith, q), tt), (λ q. ground (arith, q), tt)) refl

advance-old : advance true old key 9 ≡ some advanced
unfolding advance get_record put_record key_bytes get put Bytes-discrete ℕ_discrete
advance-old = refl
