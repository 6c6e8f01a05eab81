-- ===== src/Watermark.antt =====
-- The server's durable store of replay watermarks and delegation generations,
-- pkg/server/watermark/. A bbolt transaction commits whole or fails and changes nothing: whether
-- it commits is an argument. A record is kept as it is, without its JSON text.
pub mod Laws
mod Tests
use g_mountie.Prelude.{
  ℕ, suc, ◌+◌, ◌%◌, ◌^◌, Bool, true, false, Option, none, some, List, [], ◌∷◌, ◌++◌, leb, ◌==◌, any,
  get, put, if◌then◌else◌, Bytes, Bytes-discrete,
}

pub record Key : Type 0 where
  pub identity : Bytes
  pub volume : Bytes
  pub epoch : Bytes

pub record Record : Type 0 where
  pub watermark : ℕ  -- uint64
  pub revoked_gens : List ℕ
  pub gen_hi : ℕ  -- uint64

abbrev pub zero_record : Record
zero_record = record { watermark = 0; revoked_gens = []; gen_hi = 0 }

unfoldable pub key_bytes : Key → Bytes
key_bytes k = k.identity ++ 0 ∷ (k.volume ++ 0 ∷ k.epoch)

abbrev pub Store : Type 0
Store = List (Bytes × Record)

abbrev pub or_zero : Option Record → Record
or_zero none = zero_record
or_zero (some r) = r

unfoldable pub get_record : Store → Key → Record
unfolding get key_bytes
get_record s k = or_zero (get Bytes-discrete s (key_bytes k))

unfoldable pub put_record : Store → Key → Record → Store
unfolding put key_bytes
put_record s k r = put Bytes-discrete s (key_bytes k) r

unfoldable pub advance : Bool → Store → Key → ℕ → Option Store
advance false s k wm = none
advance true s k wm =
    let r = get_record s k in
    if leb wm r.watermark then some s else some (put_record s k (record r { watermark = wm }))

abbrev pub has_gen : ℕ → List ℕ → Bool
has_gen gen gens = any (λ g. g == gen) gens

unfoldable pub revoke_gen : Bool → Store → Key → ℕ → Option Store
revoke_gen false s k gen = none
revoke_gen true s k gen =
    let r = get_record s k in
    if has_gen gen r.revoked_gens
    then some s
    else some (put_record s k (record r { revoked_gens = r.revoked_gens ++ gen ∷ [] }))

-- The new generation, and the store that holds it.
unfoldable pub next_gen : Bool → Store → Key → Option (ℕ × Store)
next_gen false s k = none
next_gen true s k =
    let r = get_record s k in
    let n = (r.gen_hi + 1) % 2 ^ 64 in some (n, put_record s k (record r { gen_hi = n }))
