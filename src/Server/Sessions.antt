-- ===== src/Server/Sessions.antt =====
-- `sessionImpl` of pkg/server/service/session.go: the open files of a session, used by handlers
-- that run at once. Each access of what they share, the flag, the counter, the table, the
-- references and the gauge, is one action, and any list of actions is an interleaving; an action
-- whose call is not at that point does nothing. The references of an entry are set before it is in
-- the table, so that is one action with its store. An fd stands for its `FileEntry` pointer too:
-- the entries' reference counts outlive the table. A `ReleaseRef` without a reference sets
-- `panicked`. The fields from `checked` on are the calls in flight.
pub mod Numbers
pub mod Refs
pub mod Files
pub mod Leaks
pub mod Gauge
use g_mountie.Prelude.{
  ℕ, ◌+◌, ◌-◌, ◌%◌, ◌^◌, Bool, true, false, ◌&&◌, not, Option, none, some, List, [], ◌∷◌, ◌==◌, ltb,
  if◌then◌else◌, count, remove_one, map, get, put, del, Bytes, ℕ_discrete,
}

pub record FileEntry : Type 0 where
  pub volume : Bytes
  pub path : Bytes

pub record Session : Type 0 where
  pub fd_num : ℕ
  pub files : List (ℕ × FileEntry)
  pub refs : List (ℕ × ℕ)
  pub closed : List ℕ  -- the fds whose `File.Release` was called
  pub opens : List Bytes  -- the volumes of the calls of `OpenFilesInc`
  pub closes : List Bytes  -- and of `OpenFilesDec`
  pub reaped : Bool
  pub panicked : Bool
  pub checked : ℕ  -- calls of `RegisterFile` past the first look at `reaped`
  pub numbered : List ℕ  -- calls of `RegisterFile` that have their fd
  pub stored : List (ℕ × Bytes)  -- that have stored their entry, with its volume
  pub pending : List ℕ  -- that have counted it, and not yet looked at `reaped` again
  pub undoing : List ℕ  -- that have found the session reaped
  pub releasing : List (ℕ × Bytes)  -- callers that took an entry from the table, and hold its reference
  pub dropped : List (ℕ × Bytes)  -- that have dropped it, and not yet counted down
  pub closing : List ℕ  -- callers that dropped the last reference, before `File.Release`
  pub loaded : List ℕ  -- fd operations that have the entry, and no reference
  pub holders : List ℕ  -- fd operations that hold a reference
  pub draining : Bool  -- `ReleaseAll` has begun
  pub todo : List ℕ  -- the fds that it has yet to visit

abbrev pub new_session : Session
new_session = record {
  fd_num = 0;
  files = [];
  refs = [];
  closed = [];
  opens = [];
  closes = [];
  reaped = false;
  panicked = false;
  checked = 0;
  numbered = [];
  stored = [];
  pending = [];
  undoing = [];
  releasing = [];
  dropped = [];
  closing = [];
  loaded = [];
  holders = [];
  draining = false;
  todo = [];
}

abbrev pub or_zero : Option ℕ → ℕ
or_zero none = 0
or_zero (some n) = n

unfoldable pub refs_of : List (ℕ × ℕ) → ℕ → ℕ
refs_of refs fd = or_zero (get ℕ_discrete refs fd)

abbrev pub set_refs : Session → ℕ → ℕ → Session
set_refs s fd n = record s { refs = put ℕ_discrete s.refs fd n }

abbrev pub row : ℕ → List (ℕ × Bytes) → Option Bytes
row fd [] = none
row fd ((i, v) ∷ l) = if i == fd then some v else row fd l

abbrev pub drop_row : ℕ → List (ℕ × Bytes) → List (ℕ × Bytes)
drop_row fd [] = []
drop_row fd ((i, v) ∷ l) = if i == fd then l else (i, v) ∷ drop_row fd l

-- `ReleaseRef`: who drops the last reference has the file to close.
unfoldable pub release_ref : Session → ℕ → Session
release_ref s fd =
    let n = refs_of s.refs fd in
    let closing = if n == 1 then fd ∷ s.closing else s.closing in
    if n == 0
    then record s { panicked = true }
    else record (set_refs s fd (n - 1)) { closing = closing }

-- `File.Release`
unfoldable pub close_file : Session → ℕ → Session
close_file s fd =
    if ltb 0 (count fd s.closing)
    then record s { closing = remove_one fd s.closing; closed = fd ∷ s.closed }
    else s

abbrev pub taken : Session → ℕ → Option FileEntry → Session
taken s fd none = s
taken s fd (some e) = record s {
  files = del ℕ_discrete s.files fd;
  releasing = (fd, e.volume) ∷ s.releasing;
}

-- `LoadAndDelete`, of `ReleaseFile` and for one fd of `ReleaseAll` and `RegisterFile`: who removes
-- the entry from the table has its reference to drop and the gauge to count down.
unfoldable pub take_entry : Session → ℕ → Session
take_entry s fd = taken s fd (get ℕ_discrete s.files fd)

abbrev pub dropped_row : Session → ℕ → Option Bytes → Session
dropped_row s fd none = s
dropped_row s fd (some v) =
    release_ref (record s { releasing = drop_row fd s.releasing; dropped = (fd, v) ∷ s.dropped }) fd

unfoldable pub drop_ref : Session → ℕ → Session
drop_ref s fd = dropped_row s fd (row fd s.releasing)

abbrev pub counted_down : Session → ℕ → Option Bytes → Session
counted_down s fd none = s
counted_down s fd (some v) = record s { dropped = drop_row fd s.dropped; closes = v ∷ s.closes }

-- `OpenFilesDec`
unfoldable pub count_down : Session → ℕ → Session
count_down s fd = counted_down s fd (row fd s.dropped)

-- `RegisterFile` up to its first look at `reaped`.
unfoldable pub check_reaped : Session → Session
check_reaped s = if s.reaped then s else record s { checked = s.checked + 1 }

abbrev pub next_fd : Session → ℕ
next_fd s = (s.fd_num + 1) % 2 ^ 64

abbrev pub numbered_as : Session → ℕ → Session
numbered_as s fd = record s { fd_num = fd; checked = s.checked - 1; numbered = fd ∷ s.numbered }

-- `fdNum.Add`
unfoldable pub take_number : Session → Session
take_number s = if ltb 0 s.checked then numbered_as s (next_fd s) else s

abbrev pub store_at : Session → ℕ → FileEntry → Session
store_at s fd e =
    set_refs
      (record s {
        files = put ℕ_discrete s.files fd e;
        numbered = remove_one fd s.numbered;
        stored = (fd, e.volume) ∷ s.stored;
      })
      fd 1

-- The store of the entry, with its first reference.
unfoldable pub publish : Session → ℕ → FileEntry → Session
publish s fd e = if ltb 0 (count fd s.numbered) then store_at s fd e else s

abbrev pub counted_up : Session → ℕ → Option Bytes → Session
counted_up s fd none = s
counted_up s fd (some v) = record s {
  stored = drop_row fd s.stored;
  opens = v ∷ s.opens;
  pending = fd ∷ s.pending;
}

-- `OpenFilesInc`
unfoldable pub count_up : Session → ℕ → Session
count_up s fd = counted_up s fd (row fd s.stored)

-- The second look of `RegisterFile` at `reaped`.
unfoldable pub recheck : Session → ℕ → Session
recheck s fd =
    let t = record s { pending = remove_one fd s.pending } in
    if ltb 0 (count fd s.pending)
    then (if s.reaped then record t { undoing = fd ∷ s.undoing } else t)
    else s

-- And its `LoadAndDelete`, where the session was reaped.
unfoldable pub undo : Session → ℕ → Session
undo s fd =
    if ltb 0 (count fd s.undoing)
    then take_entry (record s { undoing = remove_one fd s.undoing }) fd
    else s

abbrev pub note_loaded : Session → ℕ → Option FileEntry → Session
note_loaded s fd none = s
note_loaded s fd (some e) = record s { loaded = fd ∷ s.loaded }

-- `GetFile`
unfoldable pub get_file : Session → ℕ → Session
get_file s fd = note_loaded s fd (get ℕ_discrete s.files fd)

-- `Acquire`, which fails once the references are gone.
unfoldable pub acquire : Session → ℕ → Session
acquire s fd =
    let t = record s { loaded = remove_one fd s.loaded } in
    if ltb 0 (count fd s.loaded)
    then (if ltb 0 (refs_of s.refs fd)
        then set_refs (record t { holders = fd ∷ s.holders }) fd (refs_of s.refs fd + 1)
        else t)
    else s

-- The end of an fd operation.
unfoldable pub end_operation : Session → ℕ → Session
end_operation s fd =
    if ltb 0 (count fd s.holders)
    then release_ref (record s { holders = remove_one fd s.holders }) fd
    else s

abbrev pub fds_of : List (ℕ × FileEntry) → List ℕ
fds_of l = map (λ row. row.0) l

-- `ReleaseAll` as it begins: it visits at least the fds that are in the table now.
unfoldable pub begin_drain : Session → Session
begin_drain s =
    if s.reaped && not s.draining then record s { draining = true; todo = fds_of s.files } else s

unfoldable pub drain_one : Session → ℕ → Session
drain_one s fd = if s.draining then take_entry (record s { todo = remove_one fd s.todo }) fd else s

pub data Action : Type 0 where
  checks numbers reaps begins_drain : Action
  publishes : ℕ → FileEntry → Action
  counts_up rechecks undoes loads acquires ends takes drops_ref counts_down closes_file drains :
      ℕ → Action

unfoldable pub act : Session → Action → Session
act s checks = check_reaped s
act s numbers = take_number s
act s (publishes fd e) = publish s fd e
act s (counts_up fd) = count_up s fd
act s (rechecks fd) = recheck s fd
act s (undoes fd) = undo s fd
act s (loads fd) = get_file s fd
act s (acquires fd) = acquire s fd
act s (ends fd) = end_operation s fd
act s (takes fd) = take_entry s fd
act s (drops_ref fd) = drop_ref s fd
act s (counts_down fd) = count_down s fd
act s (closes_file fd) = close_file s fd
act s reaps = record s { reaped = true }
act s begins_drain = begin_drain s
act s (drains fd) = drain_one s fd

unfoldable pub run : Session → List Action → Session
run s [] = s
run s (a ∷ acts) = run (act s a) acts
