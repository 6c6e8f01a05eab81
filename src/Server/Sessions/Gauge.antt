-- ===== src/Server/Sessions/Gauge.antt =====
-- The open-files gauge against the table, volume by volume.
use g_mountie.Prelude.{
  ℕ, ◌+◌, ◌^◌, ◌<◌, ◌≡◌, inl, inr, refl, true, count, remove_one, ◌&&◌, not, none, some, List, [],
  ◌∷◌, ltb, length, get, put, del, if◌then◌else◌, same, count_bytes, Bytes, ℕ_discrete, arith,
  Option-cases, Bool-cases, ◌==◌, Unique, put-Unique, subst, del_absent, del-Unique,
}
use mathlib.Core.Logic.{if_pos, if_neg}
use g_mountie.Server.Sessions.{
  FileEntry, Session, new_session, refs_of, set_refs, row, drop_row, release_ref, close_file,
  take_entry, drop_ref, count_down, check_reaped, next_fd, numbered_as, take_number, store_at,
  publish, count_up, recheck, undo, get_file, acquire, end_operation, fds_of, begin_drain,
  drain_one, Action, checks, numbers, reaps, begins_drain, publishes, counts_up, rechecks, undoes,
  loads, acquires, ends, takes, drops_ref, counts_down, closes_file, drains, act, run,
}
use g_mountie.Server.Sessions.Files.{unstored, act-Counts, new_session-Counts}
use g_mountie.Server.Sessions.Refs.{Counts}
use g_mountie.Server.Sessions.Numbers.{if_both, release_ref_rest, act_fd_num}

-- The files in the table that are on the volume.
abbrev pub open_on : Bytes → List (ℕ × FileEntry) → ℕ
open_on v [] = 0
open_on v ((fd, e) ∷ files) = if same e.volume v then open_on v files + 1 else open_on v files

-- The calls of a list that are on the volume.
abbrev pub calls_on : Bytes → List (ℕ × Bytes) → ℕ
calls_on v [] = 0
calls_on v ((fd, w) ∷ l) = if same w v then calls_on v l + 1 else calls_on v l

-- `OpenFilesInc` less `OpenFilesDec` is the number of the table's files, once the calls that have yet
-- to count have done so.
abbrev pub Gauged : Session → Type 0
Gauged s =
    Unique ℕ_discrete s.files
    × ((v : Bytes)
        → count_bytes v s.opens + calls_on v s.stored
          ≡ count_bytes v s.closes
            + calls_on v s.releasing
            + calls_on v s.dropped
            + open_on v s.files)

calls_on-drop_row :
    (v : Bytes) (fd : ℕ) (l : List (ℕ × Bytes)) {w : Bytes}
    → row fd l ≡ some w
    → calls_on v ((fd, w) ∷ drop_row fd l) ≡ calls_on v l
calls_on-drop_row v fd [] e = absurd (ground (arith, e))
calls_on-drop_row v fd ((i, x) ∷ l) {w} e = elim (Bool-cases (i == fd)) [
  | inl y ↦ let same_row : x ≡ w = ground (arith, (rw y at e)) in rw (y, same_row) refl
  | inr n ↦ rw n (ground (arith, calls_on-drop_row v fd l {w = w} (rw n at e)))
]

open_on-put :
    (v : Bytes) (files : List (ℕ × FileEntry)) (fd : ℕ) (e : FileEntry)
    → get ℕ_discrete files fd ≡ none
    → open_on v (put ℕ_discrete files fd e) ≡ open_on v ((fd, e) ∷ files)
unfolding get put
open_on-put v [] fd e h = refl
open_on-put v ((i, x) ∷ files) fd e h = ground (arith, h, open_on-put v files fd e)

open_on-del :
    (v : Bytes) (files : List (ℕ × FileEntry)) (fd : ℕ) (e : FileEntry)
    → Unique ℕ_discrete files
    → get ℕ_discrete files fd ≡ some e
    → open_on v ((fd, e) ∷ del ℕ_discrete files fd) ≡ open_on v files
unfolding get del
open_on-del v [] fd e u h = absurd (ground (arith, h))
open_on-del v ((i, x) ∷ files) fd e u h = elim (ℕ_discrete i fd) [
  | yes p ↦
      let gone : get ℕ_discrete files fd ≡ none =
        subst (λ j. get ℕ_discrete files j ≡ none) p u.0 in
      let first : x ≡ e = ground (arith, h, p) in
      let rest : del ℕ_discrete ((i, x) ∷ files) fd ≡ files =
        rw (if_pos _ p) (del_absent ℕ_discrete files fd gone) in
      rw (rest, first) refl
  | no n ↦
      let later : get ℕ_discrete files fd ≡ some e = ground (arith, n, h) in
      let rest : del ℕ_discrete ((i, x) ∷ files) fd ≡ (i, x) ∷ del ℕ_discrete files fd =
        rw (if_neg _ n) refl in
      rw rest (ground (arith, open_on-del v files fd e u.1 later))
]

release_ref-Gauged : (s : Session) (fd : ℕ) → Gauged s → Gauged (release_ref s fd)
release_ref-Gauged s fd h = let r = release_ref_rest s fd in rw (r.1, r.2, r.3, r.8, r.10, r.11) h

take_entry-Gauged : (s : Session) (fd : ℕ) → Gauged s → Gauged (take_entry s fd)
unfolding take_entry
take_entry-Gauged s fd h = elim (Option-cases (get ℕ_discrete s.files fd)) [
  | inl n ↦ rw (n, take_entry) h
  | inr (e, q) ↦
      rw (q, take_entry)
        (
          del-Unique ℕ_discrete s.files fd h.0,
          λ v. ground (arith, h.1 v, open_on-del v s.files fd e h.0 q),
        )
]

drop_ref-Gauged : (s : Session) (fd : ℕ) → Gauged s → Gauged (drop_ref s fd)
unfolding drop_ref
drop_ref-Gauged s fd h = elim (Option-cases (row fd s.releasing)) [
  | inl n ↦ rw (n, drop_ref) h
  | inr (w, q) ↦
      let t = record s { releasing = drop_row fd s.releasing; dropped = (fd, w) ∷ s.dropped } in
      let g : Gauged t =
        (h.0, λ v. ground (arith, h.1 v, calls_on-drop_row v fd s.releasing {w = w} q)) in
      rw (q, drop_ref) (release_ref-Gauged t fd g)
]

count_down-Gauged : (s : Session) (fd : ℕ) → Gauged s → Gauged (count_down s fd)
unfolding count_down
count_down-Gauged s fd h = elim (Option-cases (row fd s.dropped)) [
  | inl n ↦ rw (n, count_down) h
  | inr (w, q) ↦
      rw (q, count_down)
        (h.0, λ v. ground (arith, h.1 v, calls_on-drop_row v fd s.dropped {w = w} q))
]

count_up-Gauged : (s : Session) (fd : ℕ) → Gauged s → Gauged (count_up s fd)
unfolding count_up
count_up-Gauged s fd h = elim (Option-cases (row fd s.stored)) [
  | inl n ↦ rw (n, count_up) h
  | inr (w, q) ↦
      rw (q, count_up) (h.0, λ v. ground (arith, h.1 v, calls_on-drop_row v fd s.stored {w = w} q))
]

store_at-Gauged :
    (s : Session) (fd : ℕ) (e : FileEntry)
    → get ℕ_discrete s.files fd ≡ none
    → Gauged s
    → Gauged (store_at s fd e)
store_at-Gauged s fd e fresh h = (
  put-Unique ℕ_discrete s.files fd e h.0,
  λ v. rw (open_on-put v s.files fd e fresh) (ground (arith, h.1 v)),
)

publish-Gauged :
    (s : Session) (fd : ℕ) (e : FileEntry) → Counts s → Gauged s → Gauged (publish s fd e)
unfolding publish
publish-Gauged s fd e c h = elim (Bool-cases (ltb 0 (count fd s.numbered))) [
  | inl y ↦
      let unused = unstored s fd (ground (arith, y)) (c.0 fd) in
      let absent : get ℕ_discrete s.files fd ≡ none = ground (arith, unused.1) in
      rw (y, publish) (store_at-Gauged s fd e absent h)
  | inr n ↦ rw (n, publish) h
]

act-Gauged : (s : Session) (a : Action) → Counts s → Gauged s → Gauged (act s a)
unfolding act check_reaped take_number recheck undo get_file acquire end_operation begin_drain
    drain_one close_file
act-Gauged s checks c h = if_both Gauged s.reaped s (record s { checked = s.checked + 1 }) h h
act-Gauged s numbers c h = if_both Gauged (ltb 0 s.checked) (numbered_as s (next_fd s)) s h h
act-Gauged s (publishes fd e) c h = publish-Gauged s fd e c h
act-Gauged s (counts_up fd) c h = count_up-Gauged s fd h
act-Gauged s (rechecks fd) c h =
    let t = record s { pending = remove_one fd s.pending } in
    let found = record t { undoing = fd ∷ s.undoing } in
    if_both Gauged (ltb 0 (count fd s.pending)) (if s.reaped then found else t) s
      (if_both Gauged s.reaped found t h h) h
act-Gauged s (undoes fd) c h =
    let t = record s { undoing = remove_one fd s.undoing } in
    if_both Gauged (ltb 0 (count fd s.undoing)) (take_entry t fd) s (take_entry-Gauged t fd h) h
act-Gauged s (loads fd) c h = elim (Option-cases (get ℕ_discrete s.files fd)) [
  | inl n ↦ rw (n, act, get_file) h
  | inr (e, q) ↦ rw (q, act, get_file) h
]
act-Gauged s (acquires fd) c h =
    let t = record s { loaded = remove_one fd s.loaded } in
    let more = set_refs (record t { holders = fd ∷ s.holders }) fd (refs_of s.refs fd + 1) in
    if_both Gauged (ltb 0 (count fd s.loaded)) (if ltb 0 (refs_of s.refs fd) then more else t) s
      (if_both Gauged (ltb 0 (refs_of s.refs fd)) more t h h) h
act-Gauged s (ends fd) c h =
    let t = record s { holders = remove_one fd s.holders } in
    if_both Gauged (ltb 0 (count fd s.holders)) (release_ref t fd) s (release_ref-Gauged t fd h) h
act-Gauged s (takes fd) c h = take_entry-Gauged s fd h
act-Gauged s (drops_ref fd) c h = drop_ref-Gauged s fd h
act-Gauged s (counts_down fd) c h = count_down-Gauged s fd h
act-Gauged s (closes_file fd) c h =
    let t = record s { closing = remove_one fd s.closing; closed = fd ∷ s.closed } in
    if_both Gauged (ltb 0 (count fd s.closing)) t s h h
act-Gauged s reaps c h = h
act-Gauged s begins_drain c h =
    let t = record s { draining = true; todo = fds_of s.files } in
    if_both Gauged (s.reaped && not s.draining) t s h h
act-Gauged s (drains fd) c h =
    let t = record s { todo = remove_one fd s.todo } in
    if_both Gauged s.draining (take_entry t fd) s (take_entry-Gauged t fd h) h

run-Gauged :
    (acts : List Action) (s : Session)
    → s.fd_num + length acts < 2 ^ 64
    → Counts s
    → Gauged s
    → Gauged (run s acts)
unfolding run
run-Gauged [] s room c h = h
run-Gauged (a ∷ acts) s room c h =
    let one : s.fd_num + 1 < 2 ^ 64 = omega (arith, room) in
    run-Gauged acts (act s a) (omega (arith, room, act_fd_num s a one)) (act-Counts s a one c)
      (act-Gauged s a c h)

-- At any moment of any interleaving of up to 2 ^ 64 - 1 steps: the increments of a volume's open-files
-- gauge, with those that a registration has yet to make for its stored entry, are the decrements,
-- with those that a call has yet to make for an entry that it took, and the files of the session's
-- table that are on the volume. So no reap, late registration or repeated release leaves the
-- gauge off once these calls are done.
pub gauge_counts :
    (acts : List Action) (v : Bytes)
    → length acts < 2 ^ 64
    → let s = run new_session acts in
      count_bytes v s.opens + calls_on v s.stored
      ≡ count_bytes v s.closes + calls_on v s.releasing + calls_on v s.dropped + open_on v s.files
gauge_counts acts v room =
    let start : Gauged new_session = (tt, λ (w : Bytes). omega arith) in
    (run-Gauged acts new_session (omega (arith, room)) new_session-Counts start).1 v
