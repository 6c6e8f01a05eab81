-- ===== src/Server/Requests/Once.antt =====
-- A request that is retried runs its handler to a reply at most once, and every caller gets that reply.
use g_mountie.Prelude.{
  ℕ, ◌+◌, ◌≤◌, ◌<◌, ◌≡◌, ◌≢◌, ◌⊎◌, inl, inr, refl, true, ◌&&◌, not, Option, none, some, List, [],
  ◌∷◌, ◌++◌, ltb, count_bytes, remove_bytes, count_bytes-remove_bytes, if◌then◌else◌, Bytes,
  Bytes-discrete, same, All, Bool-cases, Option-cases, arith, subst,
}
use g_mountie.Server.Requests.{
  Use, got, added, Calls, no_calls, CallStep, looks, enters, looks_again, finishes, look, enter,
  answer_each, land, reply_to, look_again, conclude, finish, call_step, call_steps,
}

module _ {Reply : Type 0} where
  -- How often an id, and any id, was added.
  abbrev pub adds_of : Bytes → List (Use Reply) → ℕ
  adds_of id [] = 0
  adds_of id (got _ ∷ h) = adds_of id h
  adds_of id (added k v ∷ h) = if same k id then adds_of id h + 1 else adds_of id h

  abbrev pub all_adds : List (Use Reply) → ℕ
  all_adds [] = 0
  all_adds (got _ ∷ h) = all_adds h
  all_adds (added k v ∷ h) = all_adds h + 1

  abbrev pub last_added : List (Use Reply) → Bytes → Option Reply
  last_added [] id = none
  last_added (got _ ∷ h) id = last_added h id
  last_added (added k v ∷ h) id = if same k id then some v else last_added h id

  -- The handlers that give a reply.
  abbrev pub successes : List (CallStep Reply) → ℕ
  successes [] = 0
  successes (finishes id (some v) ∷ steps) = successes steps + 1
  successes (finishes id none ∷ steps) = successes steps
  successes (looks _ ∷ steps) = successes steps
  successes (enters _ ∷ steps) = successes steps
  successes (looks_again _ ∷ steps) = successes steps

  -- An LRU cache of `size` replies keeps all of them while no more than `size` were added, and
  -- answers nothing but what was added last under the id.
  abbrev pub LruLaws : ℕ → (List (Use Reply) → Bytes → Option Reply) → Type 0
  LruLaws size lookup =
      ((h : List (Use Reply)) (id : Bytes)
        → all_adds h ≤ size
        → lookup h id ≡ none
        → adds_of id h ≡ 0)
      × ((h : List (Use Reply)) (id : Bytes) (v : Reply)
          → lookup h id ≡ some v
          → last_added h id ≡ some v)

  -- One flight for an id at most, in which a handler runs at most once, and only if there was no
  -- reply before.
  abbrev pub Exclusive : Calls Reply → Bytes → Type 0
  Exclusive c id =
      (count_bytes id c.flights ≤ 1)
      × (count_bytes id c.running ≤ count_bytes id c.flights)
      × (count_bytes id c.running + adds_of id c.history ≤ 1)
      × (count_bytes id c.executed ≡ adds_of id c.history)

  abbrev Agreed : List (Use Reply) → List (Bytes × Reply) → Type 0
  Agreed h answers = All (λ a. last_added h a.0 ≡ some a.1) answers

  abbrev pub Orderly : Calls Reply → Type 0
  Orderly c = ((id : Bytes) → Exclusive c id) × Agreed c.history c.answers

  Agreed-answer_each :
      (h : List (Use Reply)) (id : Bytes) (v : Reply) (joined : List Bytes)
      (answers : List (Bytes × Reply))
      → last_added h id ≡ some v
      → Agreed h answers
      → Agreed h (answer_each id v joined ++ answers)
  Agreed-answer_each h id v [] answers e a = a
  Agreed-answer_each h id v (j ∷ joined) answers e a = elim (Bool-cases (same j id)) [
    | inl y ↦ rw y (e, Agreed-answer_each h id v joined answers e a)
    | inr n ↦ rw n (Agreed-answer_each h id v joined answers e a)
  ]

  -- A reply to an id without one leaves the other answers.
  last_added_none :
      (h : List (Use Reply)) (id : Bytes) (v : Reply) → adds_of id h ≡ 0 → last_added h id ≢ some v
  last_added_none [] id v z e = ground (arith, e)
  last_added_none (got k ∷ h) id v z e = last_added_none h id v z e
  last_added_none (added k w ∷ h) id v z e = ground (arith, z, e, last_added_none h id v)

  Agreed-added :
      (h : List (Use Reply)) (id : Bytes) (v : Reply) (answers : List (Bytes × Reply))
      → adds_of id h ≡ 0
      → Agreed h answers
      → Agreed (added id v ∷ h) answers
  Agreed-added h id v [] z a = tt
  Agreed-added h id v ((k, w) ∷ answers) z a = elim (Bytes-discrete id k) [
    | yes q ↦ absurd (last_added_none h k w (subst (λ j. adds_of j h ≡ 0) q z) a.0)
    | no n ↦ (ground (arith, n, a.0), Agreed-added h id v answers z a.1)
  ]

  land-Agreed :
      (c : Calls Reply) (id : Bytes) (v : Reply)
      → last_added c.history id ≡ some v
      → Agreed c.history c.answers
      → Agreed c.history (reply_to c id v)
  land-Agreed c id v e a = (e, Agreed-answer_each c.history id v c.joined c.answers e a)

  -- A flight that ends leaves each id in order, where its handler is over.
  land-Exclusive :
      (c : Calls Reply) (id : Bytes) (answers : List (Bytes × Reply))
      → 0 < count_bytes id c.flights
      → count_bytes id c.running ≡ 0
      → ((k : Bytes) → Exclusive c k)
      → (k : Bytes) → Exclusive (land c id answers) k
  land-Exclusive c id answers some_one idle h k =
      let less = count_bytes-remove_bytes k id c.flights some_one in
      let less_here = count_bytes-remove_bytes id id c.flights some_one in
      let here : Exclusive (land c id answers) id = ground (arith, h id, idle, less_here) in
      elim (Bytes-discrete id k) [
        | yes q ↦ subst (Exclusive (land c id answers)) q here
        | no n ↦ ground (arith, h k, less, n)
      ]

  enter-Orderly : (c : Calls Reply) (id : Bytes) → Orderly c → Orderly (enter c id)
  unfolding enter
  enter-Orderly c id (h, a) = elim (Bool-cases (ltb 0 (count_bytes id c.queued))) [
    | inl y ↦ elim (Bool-cases (ltb 0 (count_bytes id c.flights))) [
      | inl z ↦ rw (y, z, enter) (h, a)
      | inr n ↦ rw (y, n, enter) (λ k. ground (arith, h k, n), a)
    ]
    | inr n ↦ rw (n, enter) (h, a)
  ]

  starts :
      (c : Calls Reply) (id : Bytes)
      → (ltb 0 (count_bytes id c.flights) && not (ltb 0 (count_bytes id c.running))) ≡ true
      → adds_of id c.history ≡ 0
      → ((k : Bytes) → Exclusive c k)
      → (k : Bytes)
      → Exclusive (record c { history = got id ∷ c.history; running = id ∷ c.running }) k
  starts c id y unused h k =
      let b = record c { history = got id ∷ c.history; running = id ∷ c.running } in
      let here : Exclusive b id = ground (arith, h id, y, unused) in
      elim (Bytes-discrete id k) [
        | yes q ↦ subst (Exclusive b) q here
        | no n ↦ ground (arith, h k, n)
      ]

  -- The handler is over: its flight has no handler left.
  stops :
      (c : Calls Reply) (id : Bytes)
      → 0 < count_bytes id c.running
      → ((k : Bytes) → Exclusive c k)
      → (k : Bytes) → Exclusive (record c { running = remove_bytes id c.running }) k
  stops c id some_one h k = ground (arith, h k, count_bytes-remove_bytes k id c.running some_one)

  stops_idle :
      (c : Calls Reply) (id : Bytes)
      → 0 < count_bytes id c.running
      → Exclusive c id
      → (count_bytes id (remove_bytes id c.running) ≡ 0)
        × (adds_of id c.history ≡ 0)
        × (0 < count_bytes id c.flights)
  stops_idle c id some_one h =
      ground (arith, h, some_one, count_bytes-remove_bytes id id c.running some_one)

  succeeds :
      (c : Calls Reply) (id : Bytes) (v : Reply)
      → adds_of id c.history ≡ 0
      → count_bytes id c.running ≡ 0
      → ((k : Bytes) → Exclusive c k)
      → (k : Bytes)
      → Exclusive (record c { history = added id v ∷ c.history; executed = id ∷ c.executed }) k
  succeeds c id v unused idle h k =
      let b = record c { history = added id v ∷ c.history; executed = id ∷ c.executed } in
      let here : Exclusive b id = ground (arith, h id, unused, idle) in
      elim (Bytes-discrete id k) [
        | yes q ↦ subst (Exclusive b) q here
        | no n ↦ ground (arith, h k, n)
      ]

  finish-Orderly :
      (c : Calls Reply) (id : Bytes) (out : Option Reply) → Orderly c → Orderly (finish c id out)
  unfolding finish
  finish-Orderly c id out (h, a) = elim (Bool-cases (ltb 0 (count_bytes id c.running))) [
    | inl y ↦
        let some_one : 0 < count_bytes id c.running = ground (arith, y) in
        let idle = stops_idle c id some_one (h id) in
        let d = record c { running = remove_bytes id c.running } in
        let stopped : (k : Bytes) → Exclusive d k = λ k. stops c id some_one h k in
        rw (y, finish) (concluded d id out idle.2 idle.0 idle.1 stopped a)
    | inr n ↦ rw (n, finish) (h, a)
  ]
    where
      concluded :
          (d : Calls Reply) (id : Bytes) (out : Option Reply)
          → 0 < count_bytes id d.flights
          → count_bytes id d.running ≡ 0
          → adds_of id d.history ≡ 0
          → ((k : Bytes) → Exclusive d k)
          → Agreed d.history d.answers
          → Orderly (conclude d id out)
      concluded d id none flies idle unused e b = (land-Exclusive d id d.answers flies idle e, b)
      concluded d id (some v) flies idle unused e b =
          let t = record d { history = added id v ∷ d.history; executed = id ∷ d.executed } in
          let each : (k : Bytes) → Exclusive t k = λ k. succeeds d id v unused idle e k in
          let own : last_added t.history id ≡ some v = ground (arith) in
          (
            land-Exclusive t id (reply_to d id v) flies idle each,
            land-Agreed t id v own (Agreed-added d.history id v d.answers unused b),
          )

module _ {Reply : Type 0} (lookup : List (Use Reply) → Bytes → Option Reply) (size : ℕ)
    (laws : LruLaws size lookup) where
  look-Orderly : (c : Calls Reply) (id : Bytes) → Orderly c → Orderly (look lookup c id)
  unfolding look
  look-Orderly c id (h, a) = elim (Option-cases (lookup c.history id)) [
    | inl n ↦ rw (n, look) (h, a)
    | inr (v, q) ↦ rw (q, look) (h, (laws.1 c.history id v q, a))
  ]

  look_again-Orderly :
      (c : Calls Reply) (id : Bytes)
      → all_adds c.history ≤ size
      → Orderly c
      → Orderly (look_again lookup c id)
  unfolding look_again
  look_again-Orderly c id room (h, a) =
      elim (Bool-cases
        (ltb 0 (count_bytes id c.flights) && not (ltb 0 (count_bytes id c.running)))) [
          | inl y ↦ elim (Option-cases (lookup c.history id)) [
            | inl n ↦
                let unused = laws.0 c.history id room n in
                let b = record c { history = got id ∷ c.history; running = id ∷ c.running } in
                let each : (k : Bytes) → Exclusive b k = λ k. starts c id y unused h k in
                rw (y, n, look_again) (each, a)
            | inr (v, q) ↦
                let b = record c { history = got id ∷ c.history } in
                let done =
                  land-Exclusive b id (reply_to b id v) (ground (arith, y)) (ground (arith, y)) h in
                rw (y, q, look_again) (done, land-Agreed b id v (laws.1 c.history id v q) a)
          ]
          | inr n ↦ rw (n, look_again) (h, a)
        ]

  pub call_step-Orderly :
      (c : Calls Reply) (s : CallStep Reply)
      → all_adds c.history ≤ size
      → Orderly c
      → Orderly (call_step lookup c s)
  unfolding call_step
  call_step-Orderly c (looks id) room h = look-Orderly c id h
  call_step-Orderly c (enters id) room h = enter-Orderly c id h
  call_step-Orderly c (looks_again id) room h = look_again-Orderly c id room h
  call_step-Orderly c (finishes id out) room h = finish-Orderly c id out h

  look_history : (c : Calls Reply) (id : Bytes) → (look lookup c id).history ≡ got id ∷ c.history
  unfolding look
  look_history c id = elim (Option-cases (lookup c.history id)) [
    | inl n ↦ rw (n, look) refl
    | inr (v, q) ↦ rw (q, look) refl
  ]

  look_again_adds :
      (c : Calls Reply) (id : Bytes)
      → all_adds (look_again lookup c id).history ≡ all_adds c.history
  unfolding look_again
  look_again_adds c id =
      elim (Bool-cases
        (ltb 0 (count_bytes id c.flights) && not (ltb 0 (count_bytes id c.running)))) [
          | inl y ↦ elim (Option-cases (lookup c.history id)) [
            | inl n ↦ rw (y, n, look_again) refl
            | inr (v, q) ↦ rw (y, q, look_again) refl
          ]
          | inr n ↦ rw (n, look_again) refl
        ]

  call_step_adds :
      (c : Calls Reply) (s : CallStep Reply) (steps : List (CallStep Reply))
      → all_adds (call_step lookup c s).history + successes steps
        ≤ all_adds c.history + successes (s ∷ steps)
  unfolding call_step enter finish
  call_step_adds c (looks id) steps = rw (look_history c id) (omega arith)
  call_step_adds c (enters id) steps = ground arith
  call_step_adds c (looks_again id) steps = rw (look_again_adds c id) (omega arith)
  call_step_adds c (finishes id none) steps = ground arith
  call_step_adds c (finishes id (some v)) steps = ground arith

  call_steps-Orderly :
      (steps : List (CallStep Reply)) (c : Calls Reply)
      → all_adds c.history + successes steps ≤ size
      → Orderly c
      → Orderly (call_steps lookup c steps)
  unfolding call_steps
  call_steps-Orderly [] c room h = h
  call_steps-Orderly (s ∷ steps) c room h =
      call_steps-Orderly steps (call_step lookup c s)
        (omega (arith, room, call_step_adds c s steps))
        (call_step-Orderly c s (omega (arith, room)) h)

module _ {Reply : Type 0} where
  -- The reply was given to a caller of the id.
  abbrev pub Answered : Bytes → Reply → List (Bytes × Reply) → Type 0
  Answered id v [] = ⊥
  Answered id v ((k, w) ∷ answers) = ((k ≡ id) × (w ≡ v)) ⊎ Answered id v answers

  Answered-last :
      (h : List (Use Reply)) (id : Bytes) (v : Reply) (answers : List (Bytes × Reply))
      → Agreed h answers
      → Answered id v answers
      → last_added h id ≡ some v
  Answered-last h id v [] a m = absurd m
  Answered-last h id v ((k, w) ∷ answers) a (inl (p, q)) = rw (← p, ← q) a.0
  Answered-last h id v ((k, w) ∷ answers) a (inr m) = Answered-last h id v answers a.1 m

  Option-same : (v w : Reply) (o : Option Reply) → o ≡ some v → o ≡ some w → v ≡ w
  Option-same v w o p q = ground (arith, p, q)

  -- However the calls and retries of any number of requests interleave, on an LRU cache that is
  -- not asked to keep more replies than it can: the handler of a request id runs to a reply at
  -- most once, and all callers of the id that get a reply get the same one. A handler that fails
  -- may run again.
  pub do_once :
      (lookup : List (Use Reply) → Bytes → Option Reply) (size : ℕ)
      → LruLaws size lookup
      → (steps : List (CallStep Reply)) → successes steps ≤ size
      → (id : Bytes)
      → (count_bytes id (call_steps lookup no_calls steps).executed ≤ 1)
        × ((v w : Reply)
            → Answered id v (call_steps lookup no_calls steps).answers
            → Answered id w (call_steps lookup no_calls steps).answers
            → v ≡ w)
  do_once lookup size laws steps room id =
      let start : Orderly {Reply = Reply} no_calls = (λ (k : Bytes). ground arith, tt) in
      let (h, a) = call_steps-Orderly lookup size laws steps no_calls (omega (arith, room)) start in
      let c = call_steps lookup no_calls steps in
      (
        ground (arith, h id),
        λ v w p q.
            Option-same v w (last_added c.history id) (Answered-last c.history id v c.answers a p)
              (Answered-last c.history id w c.answers a q),
      )
