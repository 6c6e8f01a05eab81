-- ===== src/Server/Recalls/Answers.antt =====
-- A recall of a session with a stream succeeds as soon as its ack comes.
use g_mountie.Prelude.{
  ℕ, ◌+◌, ◌^◌, ◌<◌, ◌≡◌, ◌≢◌, ◌⊎◌, inl, inr, refl, true, false, none, some, List, [], ◌∷◌, ◌==◌,
  get, Bytes, Bytes-discrete, arith, Bool-cases, Option-cases, sym, subst,
}
use g_mountie.Server.Recalls.{
  Registry, has_id, drop_id, register, release_stream, ack, begin_on, begin_recall, give_up, Call,
  registers, releases, acks, begins, gives_up, step, steps, recall, is_slot, next_recall,
}

-- An ack of the number comes before anyone gives it up.
abbrev pub Answered : ℕ → List Call → Type 0
Answered id [] = ⊥
Answered id (acks session i ∷ cs) = (i ≡ id) ⊎ Answered id cs
Answered id (gives_up i ∷ cs) = (i ≢ id) × Answered id cs
Answered id (registers _ _ ∷ cs) = Answered id cs
Answered id (releases _ _ ∷ cs) = Answered id cs
Answered id (begins _ ∷ cs) = Answered id cs

-- The number waits in the registry, or its ack is there.
abbrev Waits : ℕ → Registry → Type 0
Waits id r = has_id id r.inflight ≡ true

has_id-drop_id :
    (id i : ℕ) (l : List ℕ) → i ≢ id → has_id id l ≡ true → has_id id (drop_id i l) ≡ true
has_id-drop_id id i [] d h = ground (arith, h)
has_id-drop_id id i (x ∷ l) d h = ground (arith, h, d, has_id-drop_id id i l d)

release_stream_rest :
    (r : Registry) (session : Bytes) (slot : ℕ)
    → ((release_stream r session slot).inflight ≡ r.inflight)
      × ((release_stream r session slot).acked ≡ r.acked)
unfolding release_stream
release_stream_rest r session slot =
    elim (Bool-cases (is_slot slot (get Bytes-discrete r.streams session))) [
      | inl y ↦ rw y (refl, refl)
      | inr n ↦ rw n (refl, refl)
    ]

step_acked :
    (id : ℕ) (c : Call) (r : Registry)
    → has_id id r.acked ≡ true
    → has_id id (step r c).acked ≡ true
unfolding step register ack begin_recall give_up
step_acked id (registers s n) r h = h
step_acked id (releases s n) r h = rw ((release_stream_rest r s n).1) h
step_acked id (acks s i) r h = elim (Bool-cases (has_id i r.inflight)) [
  | inl y ↦ rw (y, step, ack) (ground (arith, h))
  | inr n ↦ rw (n, step, ack) h
]
step_acked id (begins o) r h = elim (Option-cases (get Bytes-discrete r.streams o)) [
  | inl n ↦ rw (n, step, begin_recall) h
  | inr (s, q) ↦ rw (q, step, begin_recall) h
]
step_acked id (gives_up i) r h = h

ack_hit :
    (session : Bytes) (id : ℕ) (r : Registry)
    → Waits id r
    → has_id id (ack r session id).acked ≡ true
unfolding ack
ack_hit session id r w = rw w (ground arith)

begin-Waits :
    (id : ℕ) (owner : Bytes) (r : Registry) → Waits id r → Waits id (begin_recall r owner).0
unfolding begin_recall
begin-Waits id owner r w = elim (Option-cases (get Bytes-discrete r.streams owner)) [
  | inl n ↦ rw (n, begin_recall) w
  | inr (s, q) ↦ rw (q, begin_recall) (ground (arith, w))
]

steps_acked :
    (id : ℕ) (calls : List Call) (r : Registry)
    → has_id id r.acked ≡ true
    → has_id id (steps r calls).acked ≡ true
unfolding steps
steps_acked id [] r h = h
steps_acked id (c ∷ cs) r h = steps_acked id cs (step r c) (step_acked id c r h)

steps-Answered :
    (id : ℕ) (calls : List Call) (r : Registry)
    → Waits id r
    → Answered id calls
    → has_id id (steps r calls).acked ≡ true
unfolding steps step register ack begin_recall give_up
steps-Answered id [] r w a = absurd a
steps-Answered id (registers s n ∷ cs) r w a = steps-Answered id cs (register r s n) w a
steps-Answered id (releases s n ∷ cs) r w a =
    steps-Answered id cs (release_stream r s n) (rw ((release_stream_rest r s n).0) w) a
steps-Answered id (acks s i ∷ cs) r w a = elim (Bool-cases (i == id)) [
  | inl y ↦
      let e : i ≡ id = ground (arith, y) in
      steps_acked id cs (ack r s i)
        (subst (λ j. has_id id (ack r s j).acked ≡ true) (sym e) (ack_hit s id r w))
  | inr n ↦
      let d : i ≢ id = ground (arith, n) in
      steps-Answered id cs (ack r s i) (has_id-drop_id id i r.inflight d w)
        (elim a [ inl e ↦ absurd (d e) | inr later ↦ later ])
]
steps-Answered id (begins o ∷ cs) r w a =
    steps-Answered id cs (begin_recall r o).0 (begin-Waits id o r w) a
steps-Answered id (gives_up i ∷ cs) r w a =
    steps-Answered id cs (give_up r i) (has_id-drop_id id i r.inflight a.0 w) a.1

begin_found :
    (r : Registry) (owner : Bytes) (slot : ℕ)
    → get Bytes-discrete r.streams owner ≡ some slot
    → begin_recall r owner ≡ begin_on (record r { next_id = next_recall r }) (some slot)
unfolding begin_recall
begin_found r owner slot s = rw s refl

-- While the owner has a stream, the numbers have room, the message is sent, and the ack of this
-- recall comes before the timer fires and anyone gives the number up, the recall succeeds, whatever
-- else is called.
pub recall-Answered :
    (calls : List Call) (r : Registry) (owner : Bytes) (slot : ℕ)
    → get Bytes-discrete r.streams owner ≡ some slot
    → r.next_id + 1 < 2 ^ 64
    → Answered (r.next_id + 1) calls
    → (recall true false calls r owner).1 ≡ none
unfolding recall
recall-Answered calls r owner slot s room a =
    let b = record r { next_id = r.next_id + 1; inflight = (r.next_id + 1) ∷ r.inflight } in
    let same : next_recall r ≡ r.next_id + 1 = omega (arith, room) in
    let acked = steps-Answered (r.next_id + 1) calls b (ground arith) a in
    rw (begin_found r owner slot s, same, acked) refl
