-- ===== src/Server/Tests.antt =====
-- Runs of the server's sessions, recalls and events, and the theorems at them.
use g_mountie.Prelude.{
  ℕ, ◌+◌, ◌≤◌, ◌<◌, ◌≡◌, inl, inr, refl, arith, true, false, none, some, List, [], ◌∷◌, get, put,
  del, count, count_bytes, Bytes, Bytes-discrete, ℕ_discrete,
}
use g_mountie.Server.Recalls.{Registry, Call, acks, begins, recall}
use g_mountie.Server.Recalls.Acks.{recall-Acked, Acked}
use g_mountie.Server.Recalls.Answers.{recall-Answered}
use g_mountie.Server.Sessions.{
  FileEntry, new_session, Action, checks, numbers, publishes, counts_up, rechecks, undoes, loads,
  acquires, ends, takes, drops_ref, counts_down, closes_file, reaps, begins_drain, drains, run, act,
  check_reaped, take_number, publish, count_up, recheck, undo, get_file, acquire, end_operation,
  begin_drain, drain_one, take_entry, drop_ref, count_down, close_file, release_ref, refs_of,
}
use g_mountie.Server.Sessions.Files.{ClosedOnce, run-ClosedOnce}
use g_mountie.Server.Sessions.Leaks.{Quiet, reaped_closes}
use g_mountie.Server.Sessions.Gauge.{open_on, calls_on, gauge_counts}
use g_mountie.Server.Requests.{
  Use, got, added, no_calls, CallStep, looks, enters, looks_again, finishes, call_steps,
}
use g_mountie.Server.Requests.Once.{adds_of, last_added, LruLaws, Answered, do_once}
use g_mountie.Server.Events.{
  Event, kind_mutated, new_event, new_local_event_bus, subscribe, emits, subscribes, receives,
  bus_calls, bus_call,
}
use g_mountie.Server.Events.Delivery.{Tracks, all_wanted, subscribe_delivers}

abbrev alice : Bytes
alice = 97 ∷ []

abbrev bob : Bytes
bob = 98 ∷ []

-- Alice has a recall stream, and one recall was sent to her before.
abbrev registry : Registry
registry = record { next_id = 1; streams = (alice, 7) ∷ []; inflight = 1 ∷ []; acked = [] }

-- The late ack of that recall, a recall of another session, and the ack of this one.
abbrev while_waiting : List Call
while_waiting = acks alice 1 ∷ begins bob ∷ acks alice 2 ∷ []

recall-Answered_example : (recall true false while_waiting registry alice).1 ≡ none
recall-Answered_example =
    recall-Answered while_waiting registry alice 7
      (unfold get in unfold Bytes-discrete in unfold ℕ_discrete in refl) (omega arith)
      (inr (inl refl))

recall-Acked_example : Acked 2 while_waiting
recall-Acked_example =
    recall-Acked true false while_waiting registry alice ((omega arith, tt), tt) (omega arith)
      recall-Answered_example

abbrev entry : FileEntry
entry = record { volume = 118 ∷ []; path = alice }

-- The reap comes between the store of fd 2 and its second look, while an operation has fd 1, and
-- `ReleaseFile` of fd 1 is under way.
abbrev late_register : List Action
late_register =
    checks
    ∷ numbers
    ∷ publishes 1 entry
    ∷ counts_up 1
    ∷ rechecks 1
    ∷ loads 1
    ∷ acquires 1
    ∷ checks
    ∷ numbers
    ∷ takes 1
    ∷ reaps
    ∷ begins_drain
    ∷ publishes 2 entry
    ∷ counts_up 2
    ∷ drains 1
    ∷ drops_ref 1
    ∷ rechecks 2
    ∷ undoes 2
    ∷ counts_down 1
    ∷ drops_ref 2
    ∷ closes_file 2
    ∷ ends 1
    ∷ closes_file 1
    ∷ counts_down 2
    ∷ []

run-ClosedOnce_example :
    ((run new_session late_register).panicked ≡ false)
    × ClosedOnce (run new_session late_register) 2
run-ClosedOnce_example = run-ClosedOnce late_register 2 (omega arith)

late_register-Quiet : Quiet (run new_session late_register)
unfolding run act check_reaped take_number publish count_up recheck undo get_file acquire
    end_operation begin_drain drain_one take_entry drop_ref count_down close_file release_ref
    refs_of get put del ℕ_discrete
late_register-Quiet = (refl, refl, refl, refl, refl, refl, refl, refl, refl)

reaped_closes_example :
    ((run new_session late_register).files ≡ [])
    × ((fd : ℕ)
        → 0 < fd
        → fd ≤ (run new_session late_register).fd_num
        → count fd (run new_session late_register).closed ≡ 1)
reaped_closes_example = reaped_closes late_register (omega arith) late_register-Quiet

gauge_counts_example :
    let s = run new_session late_register in
    count_bytes (118 ∷ []) s.opens + calls_on (118 ∷ []) s.stored
    ≡ count_bytes (118 ∷ []) s.closes
      + calls_on (118 ∷ []) s.releasing
      + calls_on (118 ∷ []) s.dropped
      + open_on (118 ∷ []) s.files
gauge_counts_example = gauge_counts late_register (118 ∷ []) (omega arith)

abbrev change : Bytes → Event
change origin = new_event alice 1 kind_mutated origin

subscribed-open : (bus_calls (new_local_event_bus 1) (subscribes alice bob ∷ [])).closed ≡ false
unfolding bus_calls bus_call subscribe
subscribed-open = refl

subscribe_delivers_example :
    let b = bus_calls (new_local_event_bus 1) (subscribes alice bob ∷ []) in
    let calls = emits alice (change bob) ∷ receives 1 ∷ emits alice (change alice) ∷ [] in
    Tracks
      (bus_calls (subscribe b alice alice) calls)
      alice
      alice
      b.next_subscriber
      (all_wanted alice alice calls)
subscribe_delivers_example =
    subscribe_delivers 1 (subscribes alice bob ∷ [])
      (emits alice (change bob) ∷ receives 1 ∷ emits alice (change alice) ∷ []) alice alice
      subscribed-open

-- A cache that forgets nothing.
last_added-LruLaws : (size : ℕ) → LruLaws size (λ h id. last_added {Reply = ℕ} h id)
last_added-LruLaws size = (λ h id room n. none_added h id n, λ h id v e. e)
  where
    none_added : (h : List (Use ℕ)) (id : Bytes) → last_added h id ≡ none → adds_of id h ≡ 0
    none_added [] id n = refl
    none_added (got k ∷ h) id n = none_added h id n
    none_added (added k v ∷ h) id n = ground (arith, n, none_added h id)

-- Two calls of a request miss before the first one ends; a third comes later.
abbrev retries : List (CallStep ℕ)
retries =
    looks alice
    ∷ looks alice
    ∷ enters alice
    ∷ looks_again alice
    ∷ enters alice
    ∷ finishes alice (some 5)
    ∷ looks alice
    ∷ []

do_once_example :
    (count_bytes alice (call_steps (λ h id. last_added h id) no_calls retries).executed ≤ 1)
    × ((v w : ℕ)
        → Answered alice v (call_steps (λ h id. last_added h id) no_calls retries).answers
        → Answered alice w (call_steps (λ h id. last_added h id) no_calls retries).answers
        → v ≡ w)
do_once_example =
    do_once (λ h id. last_added h id) 1 (last_added-LruLaws 1) retries (omega arith) alice
