-- ===== src/Server/Recalls/Acks.antt =====
-- A recall succeeds only by an ack of its own number.
use g_mountie.Prelude.{
  ℕ, ◌+◌, ◌%◌, ◌^◌, ◌≤◌, ◌<◌, ◌≡◌, ◌≢◌, ◌⊎◌, inl, inr, refl, Bool, true, none, List, [], ◌∷◌, ◌==◌,
  get, All, Bytes, Bytes-discrete, arith, Bool-cases, Option-cases,
}
use g_mountie.Server.Recalls.{
  Registry, has_id, drop_id, register, release_stream, ack, begin_recall, give_up, Call, registers,
  releases, acks, begins, gives_up, step, steps, recall, is_slot,
}

-- The number is acked by one of the calls.
abbrev pub Acked : ℕ → List Call → Type 0
Acked id [] = ⊥
Acked id (acks session i ∷ cs) = (i ≡ id) ⊎ Acked id cs
Acked id (registers _ _ ∷ cs) = Acked id cs
Acked id (releases _ _ ∷ cs) = Acked id cs
Acked id (begins _ ∷ cs) = Acked id cs
Acked id (gives_up _ ∷ cs) = Acked id cs

register_acked :
    (r : Registry) (session : Bytes) (slot : ℕ) → (register r session slot).acked ≡ r.acked
unfolding register
register_acked r session slot = refl

give_up_acked : (r : Registry) (id : ℕ) → (give_up r id).acked ≡ r.acked
unfolding give_up
give_up_acked r id = refl

release_stream_acked :
    (r : Registry) (session : Bytes) (slot : ℕ) → (release_stream r session slot).acked ≡ r.acked
unfolding release_stream
release_stream_acked r session slot = ground arith

begin_recall_acked : (r : Registry) (owner : Bytes) → (begin_recall r owner).0.acked ≡ r.acked
unfolding begin_recall
begin_recall_acked r owner = elim (Option-cases (get Bytes-discrete r.streams owner)) [
  | inl n ↦ rw n refl
  | inr (s, q) ↦ rw q refl
]

ack_acked :
    (r : Registry) (session : Bytes) (i id : ℕ)
    → has_id id (ack r session i).acked ≡ true
    → (i ≡ id) ⊎ (has_id id r.acked ≡ true)
unfolding ack
ack_acked r session i id h = elim (Bool-cases (i == id)) [
  | inl y ↦ inl (ground (arith, y))
  | inr n ↦ inr (ground (arith, n, h))
]

steps-Acked :
    (id : ℕ) (calls : List Call) (r : Registry)
    → has_id id (steps r calls).acked ≡ true
    → Acked id calls ⊎ (has_id id r.acked ≡ true)
unfolding steps step
steps-Acked id [] r h = inr h
steps-Acked id (registers s n ∷ cs) r h =
    rw (register_acked r s n) at (steps-Acked id cs (register r s n) h)
steps-Acked id (releases s n ∷ cs) r h =
    rw (release_stream_acked r s n) at (steps-Acked id cs (release_stream r s n) h)
steps-Acked id (acks s i ∷ cs) r h = elim (steps-Acked id cs (ack r s i) h) [
  | inl a ↦ inl (inr a)
  | inr q ↦ elim (ack_acked r s i id q) [ inl e ↦ inl (inl e) | inr p ↦ inr p ]
]
steps-Acked id (begins o ∷ cs) r h =
    rw (begin_recall_acked r o) at (steps-Acked id cs (begin_recall r o).0 h)
steps-Acked id (gives_up i ∷ cs) r h = rw (give_up_acked r i) at (steps-Acked id cs (give_up r i) h)

-- No number beyond the counter is in flight or acked.
abbrev pub Counted : Registry → Type 0
Counted r = All (λ i. i ≤ r.next_id) r.inflight × All (λ i. i ≤ r.next_id) r.acked

All-raise : (n m : ℕ) (l : List ℕ) → n ≤ m → All (λ i. i ≤ n) l → All (λ i. i ≤ m) l
All-raise n m [] h a = tt
All-raise n m (i ∷ l) h a = (omega (arith, h, a.0), All-raise n m l h a.1)

All-drop_id : (n id : ℕ) (l : List ℕ) → All (λ i. i ≤ n) l → All (λ i. i ≤ n) (drop_id id l)
All-drop_id n id [] a = tt
All-drop_id n id (i ∷ l) a = ground (arith, a.0, All-drop_id n id l a.1)

has_id-le : (n id : ℕ) (l : List ℕ) → All (λ i. i ≤ n) l → has_id id l ≡ true → id ≤ n
has_id-le n id [] a h = ground (arith, h)
has_id-le n id (i ∷ l) a h = ground (arith, h, a.0, has_id-le n id l a.1)

abbrev pub raised : (r : Registry) → r.next_id + 1 < 2 ^ 64 → r.next_id ≤ (r.next_id + 1) % 2 ^ 64
raised r room = omega (arith, room)

-- While the counter has room, each call keeps it above all numbers in use.
pub step-Counted :
    (r : Registry) (c : Call) → r.next_id + 1 < 2 ^ 64 → Counted r → Counted (step r c)
unfolding step register release_stream ack begin_recall give_up
step-Counted r (registers s n) room h = h
step-Counted r (releases s n) room h =
    elim (Bool-cases (is_slot n (get Bytes-discrete r.streams s))) [
      | inl y ↦ rw y h
      | inr e ↦ rw e h
    ]
step-Counted r (acks s i) room h = (
  All-drop_id r.next_id i r.inflight h.0,
  elim (Bool-cases (has_id i r.inflight)) [
    | inl y ↦ rw y (has_id-le r.next_id i r.inflight h.0 y, h.1)
    | inr n ↦ rw n h.1
  ],
)
step-Counted r (begins o) room h =
    let m = (r.next_id + 1) % 2 ^ 64 in
    let up = raised r room in
    let a = All-raise r.next_id m r.inflight up h.0 in
    let b = All-raise r.next_id m r.acked up h.1 in
    elim (Option-cases (get Bytes-discrete r.streams o)) [
      | inl n ↦ rw (n, step, begin_recall) (a, b)
      | inr (s, q) ↦ rw (q, step, begin_recall) ((omega (arith), a), b)
    ]
step-Counted r (gives_up i) room h = (All-drop_id r.next_id i r.inflight h.0, h.1)

begin_recall-next_id :
    (r : Registry) (owner : Bytes)
    → r.next_id + 1 < 2 ^ 64
    → (begin_recall r owner).0.next_id ≡ r.next_id + 1
unfolding begin_recall
begin_recall-next_id r owner room = elim (Option-cases (get Bytes-discrete r.streams owner)) [
  | inl n ↦ rw n (omega (arith, room))
  | inr (s, q) ↦ rw q (omega (arith, room))
]

-- A number above the counter is not acked yet.
fresh_number : (r : Registry) → Counted r → has_id (r.next_id + 1) r.acked ≢ true
fresh_number r h e = omega (arith, has_id-le r.next_id (r.next_id + 1) r.acked h.1 e)

-- A recall that succeeds was acked, by its own number and while it was waiting: no ack of an
-- earlier recall is taken for it. The numbers in use are at most the counter, which has room.
pub recall-Acked :
    (sent timer : Bool) (calls : List Call) (r : Registry) (owner : Bytes)
    → Counted r
    → r.next_id + 1 < 2 ^ 64
    → (recall sent timer calls r owner).1 ≡ none
    → Acked (r.next_id + 1) calls
unfolding recall
recall-Acked sent timer calls r owner h room e =
    let b = (begin_recall r owner).0 in
    let id = r.next_id + 1 in
    let same : b.next_id ≡ id = begin_recall-next_id r owner room in
    elim (Bool-cases (has_id b.next_id (steps b calls).acked)) [
      | inl y ↦ elim (steps-Acked id calls b (rw same at y)) [
        | inl a ↦ a
        | inr q ↦ absurd (fresh_number r h (rw (begin_recall_acked r owner) at q))
      ]
      | inr n ↦ absurd (ground (arith, e, n))
    ]
