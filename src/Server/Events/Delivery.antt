-- ===== src/Server/Events/Delivery.antt =====
-- A subscriber gets every event that it wants, in order, or learns that its subscription ended.
use g_mountie.Prelude.{
  ℕ, ◌≤◌, ◌<◌, ◌≡◌, ◌≢◌, ◌⊎◌, inl, inr, refl, true, false, ◌&&◌, not, some, List, [], ◌∷◌, ◌++◌,
  ltb, length, count, count-append, one_if, remove_one, if◌then◌else◌, get, Bytes, Bytes-discrete,
  ℕ_discrete, same, same_refl, get-put_self, get-put_ne, Bool-cases, arith, subst, sym, ap, ◌∙◌,
}
use mathlib.Core.List.{append-nil, append_assoc}
use g_mountie.Server.Events.{
  Event, Subscriber, EventBus, on_volume, set_volume, terminate, try_send, is_echo, send_to,
  remove_locked, remove_each, new_local_event_bus, fanout, subscribe, cancel, take_one, take_from,
  listed_in, close, receive, BusCall, emits, subscribes, cancels, receives, closes, bus_call,
  bus_calls,
}
use g_mountie.Server.Events.Sends.{
  fan_each_other, fan_each_listed, update_other, update_self, Ended, update-Ended, fan_each-Ended,
  terminate_each-Ended, terminate_each_listed, places, places-set_self, places-set_ne,
  places-remove_locked, places-remove_each,
}

-- The subscriber of `volume` has all of `w`, in its channel or received, or it has ended.
abbrev Served : EventBus → Bytes → Bytes → ℕ → List Event → Type 0
Served b v session i w =
    (s : Subscriber) × (get ℕ_discrete b.subscribers i ≡ some s)
    × (s.session_id ≡ session)
    × (s.done ≡ false)
    × (s.received ++ s.ch ≡ w)
    × ((u : Bytes) → places i b.volumes u ≡ one_if (same v u))

abbrev pub Tracks : EventBus → Bytes → Bytes → ℕ → List Event → Type 0
Tracks b v session i w = (i < b.next_subscriber) × (Ended b.subscribers i ⊎ Served b v session i w)

-- What a call adds for a subscriber: the events of its volume that are not its own changes.
abbrev pub wanted : Bytes → Bytes → BusCall → List Event
wanted v session (emits u ev) = if same v u && not (is_echo ev session) then ev ∷ [] else []
wanted v session (subscribes u other) = []
wanted v session (cancels u i) = []
wanted v session (receives i) = []
wanted v session closes = []

abbrev pub all_wanted : Bytes → Bytes → List BusCall → List Event
all_wanted v session [] = []
all_wanted v session (c ∷ cs) = wanted v session c ++ all_wanted v session cs

abbrev own_part : Event → Bytes → List Event
own_part ev session = if not (is_echo ev session) then ev ∷ [] else []

-- A send to a live subscriber ends it, or adds the event unless it is the subscriber's own.
send_to-cases :
    (size : ℕ) (ev : Event) (s : Subscriber)
    → s.done ≡ false
    → ((send_to size ev s).0.done ≡ true)
      ⊎ (((send_to size ev s).1 ≡ true)
          × ((send_to size ev s).0.session_id ≡ s.session_id)
          × ((send_to size ev s).0.done ≡ false)
          × ((send_to size ev s).0.received ++ (send_to size ev s).0.ch
              ≡ (s.received ++ s.ch) ++ own_part ev s.session_id))
unfolding send_to try_send terminate
send_to-cases size ev s d = elim (Bool-cases (is_echo ev s.session_id)) [
  | inl y ↦ rw (y, send_to) (inr (refl, refl, d, sym (append-nil (s.received ++ s.ch))))
  | inr n ↦ elim (Bool-cases (ltb (length s.ch) size)) [
    | inl z ↦
        rw (n, d, z, send_to, try_send)
          (inr (refl, refl, refl, sym (append_assoc s.received s.ch (ev ∷ []))))
    | inr m ↦ rw (n, d, m, send_to, try_send, terminate) (inl refl)
  ]
]

-- The fanout of an event of another volume.
fanout_elsewhere :
    (b : EventBus) (v u session : Bytes) (ev : Event) (i : ℕ) (w : List Event)
    → v ≢ u
    → Served b v session i w
    → Served (fanout b u ev) v session i w
unfolding fanout
fanout_elsewhere b v u session ev i w n (s, g, o, d, r, p) =
    let absent : count i (on_volume b.volumes u) ≡ 0 = p u ∙ ground (arith, n) in
    let e = fan_each_other b.buffer_size ev b.subscribers (on_volume b.volumes u) i absent in
    (s, e.0 ∙ g, o, d, r, λ t. places-remove_each b.volumes u t i _ e.1 ∙ p t)

fanout_here :
    (b : EventBus) (v session : Bytes) (ev : Event) (i : ℕ) (w : List Event)
    → Served b v session i w
    → Ended (fanout b v ev).subscribers i
      ⊎ Served (fanout b v ev) v session i (w ++ own_part ev session)
unfolding fanout
fanout_here b v session ev i w (s, g, o, d, r, p) =
    let once : count i (on_volume b.volumes v) ≡ 1 = p v ∙ ap one_if (same_refl v) in
    let e = fan_each_listed b.buffer_size ev b.subscribers (on_volume b.volumes v) i s once g in
    let t = (send_to b.buffer_size ev s).0 in
    elim (send_to-cases b.buffer_size ev s d) [
      | inl ended ↦ inl (t, e.0, ended)
      | inr (kept, o1, d1, r1) ↦
          let stays = e.1 ∙ ap (λ x. one_if (not x)) kept in
          inr (
            t,
            e.0,
            o1 ∙ o,
            d1,
            rw (← r, ← o) r1,
            λ x. places-remove_each b.volumes v x i _ stays ∙ p x,
          )
    ]

wanted_here : (v session : Bytes) (ev : Event) → wanted v session (emits v ev) ≡ own_part ev session
wanted_here v session ev = rw (same_refl v) refl

wanted_elsewhere : (v u session : Bytes) (ev : Event) → v ≢ u → wanted v session (emits u ev) ≡ []
wanted_elsewhere v u session ev n = ground (arith, n)

fanout-Tracks :
    (b : EventBus) (v u session : Bytes) (ev : Event) (i : ℕ) (w : List Event)
    → Tracks b v session i w
    → Tracks (fanout b u ev) v session i (w ++ wanted v session (emits u ev))
unfolding fanout
fanout-Tracks b v u session ev i w (lt, inl e) =
    (lt, inl (fan_each-Ended b.buffer_size ev b.subscribers (on_volume b.volumes u) i e))
fanout-Tracks b v u session ev i w (lt, inr (s, g, o, d, r, p)) = elim (Bytes-discrete v u) [
  | yes q ↦
      let here = fanout_here b v session ev i w (s, g, o, d, r, p) in
      rw (← q, wanted_here v session ev) (lt, here)
  | no n ↦
      let there = fanout_elsewhere b v u session ev i w n (s, g, o, d, r, p) in
      rw (wanted_elsewhere v u session ev n, append-nil w) (lt, inr there)
]

cancel-Tracks :
    (b : EventBus) (v u session : Bytes) (j i : ℕ) (w : List Event)
    → Tracks b v session i w
    → Tracks (cancel b u j) v session i w
unfolding cancel terminate
cancel-Tracks b v u session j i w (lt, inl e) =
    (lt, inl (update-Ended b.subscribers i j terminate (λ s d. refl) e))
cancel-Tracks b v u session j i w (lt, inr (s, g, o, d, r, p)) = (
  lt,
  elim (ℕ_discrete j i) [
    | yes q ↦ inl (rw q (terminate s, update_self b.subscribers i terminate s g, refl))
    | no n ↦ inr (
      s,
      update_other b.subscribers i j terminate n ∙ g,
      o,
      d,
      r,
      λ t. places-remove_locked b.volumes u t i j n ∙ p t,
    )
  ],
)

take_from_facts :
    (s : Subscriber) (l : List Event)
    → s.ch ≡ l
    → ((take_from s l).done ≡ s.done)
      × ((take_from s l).session_id ≡ s.session_id)
      × ((take_from s l).received ++ (take_from s l).ch ≡ s.received ++ l)
take_from_facts s [] e = (refl, refl, rw e refl)
take_from_facts s (ev ∷ evs) e = (refl, refl, append_assoc s.received (ev ∷ []) evs)

receive-Tracks :
    (b : EventBus) (v session : Bytes) (j i : ℕ) (w : List Event)
    → Tracks b v session i w
    → Tracks (receive b j) v session i w
unfolding receive
receive-Tracks b v session j i w (lt, inl e) = (
  lt,
  inl (update-Ended b.subscribers i j take_one (λ s d. (take_from_facts s s.ch refl).0 ∙ d) e),
)
receive-Tracks b v session j i w (lt, inr (s, g, o, d, r, p)) = (
  lt,
  inr (elim (ℕ_discrete j i) [
    | yes q ↦
        let f = take_from_facts s s.ch refl in
        rw q (take_one s, update_self b.subscribers i take_one s g, f.1 ∙ o, f.0 ∙ d, f.2 ∙ r, p)
    | no n ↦ (s, update_other b.subscribers i j take_one n ∙ g, o, d, r, p)
  ]),
)

-- A subscription adds itself to one list only.
subscribed_places :
    (b : EventBus) (u t : Bytes) (i : ℕ)
    → b.next_subscriber ≢ i
    → places i
        (if b.closed
          then b.volumes
          else set_volume b.volumes u (on_volume b.volumes u ++ (b.next_subscriber ∷ [])))
        t
      ≡ places i b.volumes t
subscribed_places b u t i lt = elim (Bool-cases b.closed) [
  | inl y ↦ rw y refl
  | inr n ↦
      let l = on_volume b.volumes u in
      let more = l ++ (b.next_subscriber ∷ []) in
      rw n (elim (Bytes-discrete u t) [
        | yes q ↦
            subst (λ x. places i (set_volume b.volumes u more) x ≡ places i b.volumes x) q
              (rw (places-set_self b.volumes u more)
                (count-append i l (b.next_subscriber ∷ []) ∙ ground (arith, lt)))
        | no d ↦ rw (places-set_ne b.volumes u t more d) refl
      ])
]

subscribe-Tracks :
    (b : EventBus) (v u session other : Bytes) (i : ℕ) (w : List Event)
    → Tracks b v session i w
    → Tracks (subscribe b u other) v session i w
unfolding subscribe
subscribe-Tracks b v u session other i w (lt, inl (s, g, d)) = (
  omega (arith, lt),
  inl (
    s,
    get-put_ne ℕ_discrete b.subscribers b.next_subscriber i _ (λ q. omega (arith, q, lt)) ∙ g,
    d,
  ),
)
subscribe-Tracks b v u session other i w (lt, inr (s, g, o, d, r, p)) =
    let kept =
      get-put_ne ℕ_discrete b.subscribers b.next_subscriber i _ (λ q. omega (arith, q, lt)) in
    (
      omega (arith, lt),
      inr (s, kept ∙ g, o, d, r, λ t. subscribed_places b u t i (λ q. omega (arith, q, lt)) ∙ p t),
    )

count-listed_in :
    (volumes : List (Bytes × List ℕ)) (v : Bytes) (i : ℕ)
    → count i (on_volume volumes v) ≤ count i (listed_in volumes)
unfolding on_volume get
count-listed_in [] v i = omega arith
count-listed_in ((u, l) ∷ volumes) v i =
    ground (arith, count-append i l (listed_in volumes), count-listed_in volumes v i)

close-Tracks :
    (b : EventBus) (v session : Bytes) (i : ℕ) (w : List Event)
    → Tracks b v session i w
    → Tracks (close b) v session i w
unfolding close
close-Tracks b v session i w (lt, inl e) =
    (lt, inl (terminate_each-Ended b.subscribers (listed_in b.volumes) i e))
close-Tracks b v session i w (lt, inr (s, g, o, d, r, p)) = (
  lt,
  inl (
      terminate_each_listed b.subscribers (listed_in b.volumes) i s g
        (omega (arith, p v ∙ ap one_if (same_refl v), count-listed_in b.volumes v i))),
)

bus_call-Tracks :
    (b : EventBus) (v session : Bytes) (c : BusCall) (i : ℕ) (w : List Event)
    → Tracks b v session i w
    → Tracks (bus_call b c) v session i (w ++ wanted v session c)
unfolding bus_call
bus_call-Tracks b v session (emits u ev) i w h = fanout-Tracks b v u session ev i w h
bus_call-Tracks b v session (subscribes u other) i w h =
    rw (append-nil w) (subscribe-Tracks b v u session other i w h)
bus_call-Tracks b v session (cancels u j) i w h =
    rw (append-nil w) (cancel-Tracks b v u session j i w h)
bus_call-Tracks b v session (receives j) i w h =
    rw (append-nil w) (receive-Tracks b v session j i w h)
bus_call-Tracks b v session closes i w h = rw (append-nil w) (close-Tracks b v session i w h)

bus_calls-Tracks :
    (cs : List BusCall) (b : EventBus) (v session : Bytes) (i : ℕ) (w : List Event)
    → Tracks b v session i w
    → Tracks (bus_calls b cs) v session i (w ++ all_wanted v session cs)
unfolding bus_calls
bus_calls-Tracks [] b v session i w h = rw (append-nil w) h
bus_calls-Tracks (c ∷ cs) b v session i w h =
    rw (← append_assoc w (wanted v session c) (all_wanted v session cs)) (
      bus_calls-Tracks cs (bus_call b c) v session i (w ++ wanted v session c)
        (bus_call-Tracks b v session c i w h))

-- The numbers that are not given out yet stand in no list.
abbrev Fresh : EventBus → Type 0
Fresh b = (i : ℕ) → b.next_subscriber ≤ i → (u : Bytes) → places i b.volumes u ≡ 0

count-remove_one-le : (i j : ℕ) (l : List ℕ) → count i (remove_one j l) ≤ count i l
count-remove_one-le i j [] = omega arith
count-remove_one-le i j (k ∷ l) = ground (arith, count-remove_one-le i j l)

remove_locked_fresh :
    (volumes : List (Bytes × List ℕ)) (v u : Bytes) (i j : ℕ)
    → ((x : Bytes) → places i volumes x ≡ 0)
    → places i (remove_locked volumes v j) u ≡ 0
unfolding remove_locked
remove_locked_fresh volumes v u i j h =
    let l = remove_one j (on_volume volumes v) in
    elim (Bytes-discrete v u) [
      | yes q ↦ rw (← q) (
          rw (places-set_self volumes v l)
            (omega (arith, count-remove_one-le i j (on_volume volumes v), h v)))
      | no n ↦ places-set_ne-count volumes v u l n (h u)
    ]
  where
    places-set_ne-count :
        (volumes : List (Bytes × List ℕ)) (v u : Bytes) (l : List ℕ)
        → v ≢ u
        → places i volumes u ≡ 0
        → places i (set_volume volumes v l) u ≡ 0
    places-set_ne-count volumes v u l n e = rw (places-set_ne volumes v u l n) e

remove_each_fresh :
    (volumes : List (Bytes × List ℕ)) (v u : Bytes) (i : ℕ) (l : List ℕ)
    → ((x : Bytes) → places i volumes x ≡ 0)
    → places i (remove_each volumes v l) u ≡ 0
unfolding remove_each
remove_each_fresh volumes v u i [] h = h u
remove_each_fresh volumes v u i (j ∷ l) h =
    remove_each_fresh (remove_locked volumes v j) v u i l
      (λ x. remove_locked_fresh volumes v x i j h)

bus_call-Fresh : (b : EventBus) (c : BusCall) → Fresh b → Fresh (bus_call b c)
unfolding bus_call fanout subscribe cancel receive close on_volume get
bus_call-Fresh b (emits v ev) h i le u = remove_each_fresh b.volumes v u i _ (h i le)
bus_call-Fresh b (subscribes v session) h i le u =
    subscribed_places b v u i (λ q. omega (arith, q, le)) ∙ h i (omega (arith, le)) u
bus_call-Fresh b (cancels v j) h i le u = remove_locked_fresh b.volumes v u i j (h i le)
bus_call-Fresh b (receives j) h i le u = h i le u
bus_call-Fresh b closes h i le u = refl

bus_calls-Fresh : (cs : List BusCall) (b : EventBus) → Fresh b → Fresh (bus_calls b cs)
unfolding bus_calls
bus_calls-Fresh [] b h = h
bus_calls-Fresh (c ∷ cs) b h = bus_calls-Fresh cs (bus_call b c) (bus_call-Fresh b c h)

new_local_event_bus-Fresh : (size : ℕ) → Fresh (new_local_event_bus size)
unfolding on_volume get
new_local_event_bus-Fresh size i le u = refl

own_places :
    (b : EventBus) (v u : Bytes)
    → b.closed ≡ false
    → ((x : Bytes) → places b.next_subscriber b.volumes x ≡ 0)
    → places b.next_subscriber (subscribe b v []).volumes u ≡ one_if (same v u)
unfolding subscribe
own_places b v u c fresh =
    let i = b.next_subscriber in
    let more = on_volume b.volumes v ++ (i ∷ []) in
    rw (c, subscribe)
      (elim (Bytes-discrete v u) [
        | yes q ↦ rw (← q) (
            rw (places-set_self b.volumes v more, same_refl v)
              (count-append i (on_volume b.volumes v) (i ∷ []) ∙ ground (arith, fresh v)))
        | no n ↦ rw (places-set_ne b.volumes v u more n) (fresh u ∙ ground (arith, n))
      ])

subscribed :
    (b : EventBus) (v session : Bytes)
    → b.closed ≡ false
    → Fresh b
    → Served (subscribe b v session) v session b.next_subscriber []
unfolding subscribe
subscribed b v session c fresh = (
  record { session_id = session; ch = []; done = b.closed; received = [] },
  get-put_self ℕ_discrete b.subscribers b.next_subscriber _,
  refl,
  c,
  refl,
  λ u. own_places b v u c (fresh b.next_subscriber (omega arith)),
)

-- A bus is created and used in any way. From a subscription on, while the bus is open, and through
-- any sequence of emits, renames, heartbeats, receives, cancels, other subscriptions and a close: a
-- subscriber has received, or has in its channel, exactly the events of its volume that are not its
-- own session's changes, in order, or its subscription has ended. No event is lost in silence.
pub subscribe_delivers :
    (size : ℕ) (before cs : List BusCall) (v session : Bytes)
    → (bus_calls (new_local_event_bus size) before).closed ≡ false
    → let b = bus_calls (new_local_event_bus size) before in
      Tracks
        (bus_calls (subscribe b v session) cs)
        v
        session
        b.next_subscriber
        (all_wanted v session cs)
unfolding subscribe
subscribe_delivers size before cs v session c =
    let b = bus_calls (new_local_event_bus size) before in
    let fresh =
      bus_calls-Fresh before (new_local_event_bus size) (new_local_event_bus-Fresh size) in
    bus_calls-Tracks cs (subscribe b v session) v session b.next_subscriber []
      (omega arith, inr (subscribed b v session c fresh))
