-- ===== src/Server/Events.antt =====
-- `localEventBus` of pkg/server/io/eventbus.go. A subscriber is known by a number, which stands for
-- its pointer: `subscribers` are their states, `volumes` the bus's map of volumes to subscribers. A
-- subscriber's `received` are the events its consumer has taken from the channel. Each call is one
-- step; metrics and the test seam are left out. Cancelling needs the volume, as the closure has it.
pub mod Sends
pub mod Delivery
use g_mountie.Prelude.{
  ℕ, ◌+◌, Bool, true, false, ◌&&◌, not, Option, none, some, List, [], ◌∷◌, ◌++◌, map, ltb, length,
  count, remove_one, if◌then◌else◌, get, put, Bytes, Bytes-discrete, ℕ_discrete, same,
}
use g_mountie.Paths.{is_empty}

pub data EventKind : Type 0 where
  kind_mutated kind_deleted kind_renamed kind_heartbeat : EventKind

pub record Event : Type 0 where
  pub path : Bytes
  pub new_path : Bytes
  pub new_version : ℕ
  pub kind : EventKind
  pub origin_session : Bytes

pub record Subscriber : Type 0 where
  pub session_id : Bytes
  pub ch : List Event
  pub done : Bool
  pub received : List Event

pub record EventBus : Type 0 where
  pub buffer_size : ℕ
  pub volumes : List (Bytes × List ℕ)
  pub subscribers : List (ℕ × Subscriber)
  pub next_subscriber : ℕ
  pub closed : Bool

-- `NewLocalEventBus`, for a size that is not negative.
abbrev pub new_local_event_bus : ℕ → EventBus
new_local_event_bus size = record {
  buffer_size = if ltb 0 size then size else 256;
  volumes = [];
  subscribers = [];
  next_subscriber = 0;
  closed = false;
}

abbrev pub or_empty : Option (List ℕ) → List ℕ
or_empty none = []
or_empty (some l) = l

unfoldable pub on_volume : List (Bytes × List ℕ) → Bytes → List ℕ
on_volume volumes v = or_empty (get Bytes-discrete volumes v)

unfoldable pub set_volume : List (Bytes × List ℕ) → Bytes → List ℕ → List (Bytes × List ℕ)
set_volume volumes v l = put Bytes-discrete volumes v l

unfoldable pub terminate : Subscriber → Subscriber
terminate s = record s { done = true }

-- `trySend`; a full buffer ends the subscription.
unfoldable pub try_send : ℕ → Subscriber → Event → Subscriber × Bool
unfolding terminate
try_send size s ev =
    if s.done
    then (s, false)
    else (if ltb (length s.ch) size
        then (record s { ch = s.ch ++ (ev ∷ []) }, true)
        else (terminate s, false))

-- A client is not told of its own change.
abbrev pub is_echo : Event → Bytes → Bool
is_echo ev session = not (is_empty ev.origin_session) && same session ev.origin_session

unfoldable pub send_to : ℕ → Event → Subscriber → Subscriber × Bool
send_to size ev s = if is_echo ev s.session_id then (s, true) else try_send size s ev

abbrev pub fan_one :
    ℕ → Event → List (ℕ × Subscriber) → ℕ → Option Subscriber → List (ℕ × Subscriber) × List ℕ
fan_one size ev subs i none = (subs, [])
fan_one size ev subs i (some s) =
    let (t, kept) = send_to size ev s in (put ℕ_discrete subs i t, if kept then [] else i ∷ [])

-- The loop of `fanout`: the subscribers after it, and those that are dropped.
unfoldable pub fan_each :
    ℕ → Event → List (ℕ × Subscriber) → List ℕ → List (ℕ × Subscriber) × List ℕ
fan_each size ev subs [] = (subs, [])
fan_each size ev subs (i ∷ is) =
    let one = fan_one size ev subs i (get ℕ_discrete subs i) in
    let rest = fan_each size ev one.0 is in (rest.0, one.1 ++ rest.1)

-- `removeLocked`
unfoldable pub remove_locked : List (Bytes × List ℕ) → Bytes → ℕ → List (Bytes × List ℕ)
remove_locked volumes v i = set_volume volumes v (remove_one i (on_volume volumes v))

unfoldable pub remove_each : List (Bytes × List ℕ) → Bytes → List ℕ → List (Bytes × List ℕ)
remove_each volumes v [] = volumes
remove_each volumes v (i ∷ is) = remove_each (remove_locked volumes v i) v is

unfoldable pub fanout : EventBus → Bytes → Event → EventBus
fanout b v ev =
    let (subs, dropped) = fan_each b.buffer_size ev b.subscribers (on_volume b.volumes v) in
    record b { subscribers = subs; volumes = remove_each b.volumes v dropped }

abbrev pub new_event : Bytes → ℕ → EventKind → Bytes → Event
new_event path version kind origin = record {
  path = path;
  new_path = [];
  new_version = version;
  kind = kind;
  origin_session = origin;
}

abbrev pub rename_event : Bytes → Bytes → ℕ → Bytes → Event
rename_event old_path new_path version origin =
    record (new_event old_path version kind_renamed origin) { new_path = new_path }

abbrev pub heartbeat : Event
heartbeat = new_event [] 0 kind_heartbeat []

unfoldable pub emit : EventBus → Bytes → Bytes → ℕ → EventKind → Bytes → EventBus
emit b v path version kind origin = fanout b v (new_event path version kind origin)

unfoldable pub emit_rename : EventBus → Bytes → Bytes → Bytes → ℕ → Bytes → EventBus
emit_rename b v old_path new_path version origin =
    fanout b v (rename_event old_path new_path version origin)

abbrev pub has_subscribers : EventBus → Bytes → Bool
has_subscribers b v = ltb 0 (length (on_volume b.volumes v))

-- `Subscribe`; a closed bus answers a subscription that has ended.
unfoldable pub subscribe : EventBus → Bytes → Bytes → EventBus
subscribe b v session =
    let i = b.next_subscriber in
    let s : Subscriber = record { session_id = session; ch = []; done = b.closed; received = [] } in
    let listed = on_volume b.volumes v ++ (i ∷ []) in
    let volumes = if b.closed then b.volumes else set_volume b.volumes v listed in
    record b {
      volumes = volumes;
      subscribers = put ℕ_discrete b.subscribers i s;
      next_subscriber = i + 1;
    }

abbrev pub update :
    List (ℕ × Subscriber)
    → ℕ
    → (Subscriber → Subscriber)
    → Option Subscriber
    → List (ℕ × Subscriber)
update subs i f none = subs
update subs i f (some s) = put ℕ_discrete subs i (f s)

-- The cancel function of a subscription.
unfoldable pub cancel : EventBus → Bytes → ℕ → EventBus
cancel b v i = record b {
  volumes = remove_locked b.volumes v i;
  subscribers = update b.subscribers i terminate (get ℕ_discrete b.subscribers i);
}

unfoldable pub terminate_each : List (ℕ × Subscriber) → List ℕ → List (ℕ × Subscriber)
terminate_each subs [] = subs
terminate_each subs (i ∷ is) = terminate_each (update subs i terminate (get ℕ_discrete subs i)) is

abbrev pub listed_in : List (Bytes × List ℕ) → List ℕ
listed_in [] = []
listed_in ((v, l) ∷ rest) = l ++ listed_in rest

unfoldable pub close : EventBus → EventBus
close b = record b {
  subscribers = terminate_each b.subscribers (listed_in b.volumes);
  volumes = [];
  closed = true;
}

abbrev pub take_from : Subscriber → List Event → Subscriber
take_from s [] = s
take_from s (ev ∷ evs) = record s { ch = evs; received = s.received ++ (ev ∷ []) }

abbrev pub take_one : Subscriber → Subscriber
take_one s = take_from s s.ch

-- The consumer's receive from the channel.
unfoldable pub receive : EventBus → ℕ → EventBus
receive b i = record b {
  subscribers = update b.subscribers i take_one (get ℕ_discrete b.subscribers i);
}

pub data BusCall : Type 0 where
  emits : Bytes → Event → BusCall  -- `Emit`, `EmitRename` or a heartbeat of the volume
  subscribes : Bytes → Bytes → BusCall
  cancels : Bytes → ℕ → BusCall
  receives : ℕ → BusCall
  closes : BusCall

unfoldable pub bus_call : EventBus → BusCall → EventBus
bus_call b (emits v ev) = fanout b v ev
bus_call b (subscribes v session) = subscribe b v session
bus_call b (cancels v i) = cancel b v i
bus_call b (receives i) = receive b i
bus_call b closes = close b

unfoldable pub bus_calls : EventBus → List BusCall → EventBus
bus_calls b [] = b
bus_calls b (c ∷ cs) = bus_calls (bus_call b c) cs

-- A tick of `heartbeatLoop`, by the volumes that it found.
abbrev pub beats : List Bytes → List BusCall
beats volumes = map (λ v. emits v heartbeat) volumes
