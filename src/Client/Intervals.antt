-- ===== src/Client/Intervals.antt =====
-- The written byte ranges of a pending file: `addInterval` and `clampIntervals` of
-- pkg/client/backend/wal/overlay.go. Offsets are not negative.
pub mod Coverage
use g_mountie.Prelude.{
  ℕ, Bool, true, false, ◌&&◌, List, [], ◌∷◌, ltb, leb, max, min, any, if◌then◌else◌,
}

-- Half open.
pub record ByteRange : Type 0 where
  pub start : ℕ
  pub end : ℕ

-- The loop once the new range is inserted: the last range that was emitted, and the rest.
unfoldable pub merge_after : ByteRange → List ByteRange → List ByteRange
merge_after last [] = last ∷ []
merge_after last (r ∷ l) =
    let joined = leb r.start last.end in
    let rest = merge_after (if joined then record last { end = max last.end r.end } else r) l in
    if joined then rest else last ∷ rest

abbrev pub touches : ByteRange → ByteRange → Bool
touches a b = leb a.start b.end && leb b.start a.end

abbrev pub join : ByteRange → ByteRange → ByteRange
join a b = record { start = min a.start b.start; end = max a.end b.end }

-- `addInterval`: the loop until the new range is inserted.
unfoldable pub add_interval : ByteRange → List ByteRange → List ByteRange
unfolding merge_after
add_interval new [] = new ∷ []
add_interval new (r ∷ l) =
    let rest = add_interval (if touches new r then join new r else new) l in
    if touches new r
    then rest
    else (if ltb new.start r.start then new ∷ merge_after r l else r ∷ rest)

unfoldable pub clamp_intervals : ℕ → List ByteRange → List ByteRange
clamp_intervals new_size [] = []
clamp_intervals new_size (r ∷ l) =
    let rest = clamp_intervals new_size l in
    if leb new_size r.start
    then rest
    else record r { end = if ltb new_size r.end then new_size else r.end } ∷ rest
