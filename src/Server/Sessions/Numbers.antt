-- ===== src/Server/Sessions/Numbers.antt =====
-- What each action leaves alone, and how far it raises the last fd.
use g_mountie.Prelude.{
  ℕ, ◌+◌, ◌-◌, ◌^◌, Bytes, ◌≤◌, ◌<◌, ◌≡◌, refl, Bool, true, false, remove_one, Option, none, some,
  ◌∷◌, ◌==◌, get, if◌then◌else◌, ℕ_discrete, arith,
}
use g_mountie.Server.Sessions.{
  FileEntry, Session, refs_of, set_refs, row, drop_row, release_ref, close_file, taken, take_entry,
  dropped_row, drop_ref, counted_down, count_down, check_reaped, take_number, publish, counted_up,
  count_up, recheck, undo, note_loaded, get_file, acquire, end_operation, begin_drain, drain_one,
  Action, checks, numbers, reaps, begins_drain, publishes, counts_up, rechecks, undoes, loads,
  acquires, ends, takes, drops_ref, counts_down, closes_file, drains, act,
}

-- A session without one reference of an fd.
abbrev pub with_less : Session → ℕ → Session
with_less s fd = record (set_refs s fd (refs_of s.refs fd - 1)) {
  closing = if refs_of s.refs fd == 1 then fd ∷ s.closing else s.closing;
}

pub if_both {ℓ} :
    (P : Session → Type ℓ) (b : Bool) (x y : Session) → P x → P y → P (if b then x else y)
if_both P true x y h k = h
if_both P false x y h k = k

-- The same where each branch reads the test.
pub if_by {ℓ} :
    (P : Session → Type ℓ) (b : Bool) (x y : Session)
    → (b ≡ true → P x)
    → (b ≡ false → P y)
    → P (if b then x else y)
if_by P true x y h k = h refl
if_by P false x y h k = k refl

-- `ReleaseRef` reads and writes the references, the files to close and the panic only.
abbrev pub SameRest : Session → Session → Type 0
SameRest s t =
    (t.fd_num ≡ s.fd_num)
    × (t.files ≡ s.files)
    × (t.opens ≡ s.opens)
    × (t.closes ≡ s.closes)
    × (t.reaped ≡ s.reaped)
    × (t.pending ≡ s.pending)
    × (t.draining ≡ s.draining)
    × (t.todo ≡ s.todo)
    × (t.stored ≡ s.stored)
    × (t.undoing ≡ s.undoing)
    × (t.releasing ≡ s.releasing)
    × (t.dropped ≡ s.dropped)

pub release_ref_rest : (s : Session) (fd : ℕ) → SameRest s (release_ref s fd)
unfolding release_ref
release_ref_rest s fd =
    if_both (SameRest s) (refs_of s.refs fd == 0) (record s { panicked = true }) (with_less s fd)
      (refl, refl, refl, refl, refl, refl, refl, refl, refl, refl, refl, refl)
      (refl, refl, refl, refl, refl, refl, refl, refl, refl, refl, refl, refl)

taken_fd_num : (s : Session) (fd : ℕ) (e : Option FileEntry) → (taken s fd e).fd_num ≡ s.fd_num
taken_fd_num s fd none = refl
taken_fd_num s fd (some e) = refl

take_entry_fd_num : (s : Session) (fd : ℕ) → (take_entry s fd).fd_num ≡ s.fd_num
unfolding take_entry
take_entry_fd_num s fd = taken_fd_num s fd (get ℕ_discrete s.files fd)

dropped_row_fd_num :
    (s : Session) (fd : ℕ) (v : Option Bytes) → (dropped_row s fd v).fd_num ≡ s.fd_num
dropped_row_fd_num s fd none = refl
dropped_row_fd_num s fd (some v) =
    (release_ref_rest
      (record s { releasing = drop_row fd s.releasing; dropped = (fd, v) ∷ s.dropped }) fd).0

counted_fd_num :
    (s : Session) (fd : ℕ) (v : Option Bytes)
    → ((counted_up s fd v).fd_num ≡ s.fd_num) × ((counted_down s fd v).fd_num ≡ s.fd_num)
counted_fd_num s fd none = (refl, refl)
counted_fd_num s fd (some v) = (refl, refl)

note_loaded_fd_num :
    (s : Session) (fd : ℕ) (e : Option FileEntry) → (note_loaded s fd e).fd_num ≡ s.fd_num
note_loaded_fd_num s fd none = refl
note_loaded_fd_num s fd (some e) = refl

pub act_fd_num :
    (s : Session) (a : Action) → s.fd_num + 1 < 2 ^ 64 → (act s a).fd_num ≤ s.fd_num + 1
unfolding act check_reaped take_number publish recheck undo get_file acquire end_operation
    begin_drain drain_one drop_ref count_up count_down close_file
act_fd_num s checks room = ground arith
act_fd_num s numbers room = ground (arith, room)
act_fd_num s (publishes fd e) room = ground arith
act_fd_num s (counts_up fd) room = omega (arith, (counted_fd_num s fd (row fd s.stored)).0)
act_fd_num s (rechecks fd) room = ground arith
act_fd_num s (undoes fd) room =
    ground (arith, take_entry_fd_num (record s { undoing = remove_one fd s.undoing }) fd)
act_fd_num s (loads fd) room = omega (arith, note_loaded_fd_num s fd (get ℕ_discrete s.files fd))
act_fd_num s (acquires fd) room = ground arith
act_fd_num s (ends fd) room =
    ground (arith, (release_ref_rest (record s { holders = remove_one fd s.holders }) fd).0)
act_fd_num s (takes fd) room = omega (arith, take_entry_fd_num s fd)
act_fd_num s (drops_ref fd) room = omega (arith, dropped_row_fd_num s fd (row fd s.releasing))
act_fd_num s (counts_down fd) room = omega (arith, (counted_fd_num s fd (row fd s.dropped)).1)
act_fd_num s (closes_file fd) room = ground arith
act_fd_num s reaps room = ground arith
act_fd_num s begins_drain room = ground arith
act_fd_num s (drains fd) room =
    ground (arith, take_entry_fd_num (record s { todo = remove_one fd s.todo }) fd)
