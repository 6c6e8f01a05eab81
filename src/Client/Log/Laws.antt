-- ===== src/Client/Log/Laws.antt =====
-- The numbers of the log, and what a replay reads.
use g_mountie.Prelude.{
  ℕ, ◌+◌, ◌^◌, ◌≤◌, ◌<◌, ◌≡◌, refl, ap, subst, true, Option, none, some, List, [], ◌∷◌, ◌++◌, ◌==◌,
  arith, inl, inr, Bool-cases, Option-cases,
}
use g_mountie.Client.Log.{
  Op, LogEntry, BboltLog, load_hi_seq, last_key, put_entry, next_seq, append, seek, parsed, replay,
  up_to, beyond, truncate, prefix,
}

-- The entries are in order, above one number and no higher than another.
abbrev pub Between : ℕ → ℕ → List LogEntry → Type 0
Between lo hi [] = lo ≤ hi
Between lo hi ((k, v) ∷ l) = (lo < k) × Between k hi l

-- The numbers rise, from 1 on, and none is above the high mark, which is below 2^64 - 1.
abbrev pub WellFormed : BboltLog → Type 0
WellFormed l = Between 0 (load_hi_seq l.hi_seq) l.entries × (load_hi_seq l.hi_seq + 1 < 2 ^ 64)

Between-le : (lo hi : ℕ) (l : List LogEntry) → Between lo hi l → lo ≤ hi
Between-le lo hi [] h = h
Between-le lo hi ((k, v) ∷ l) h = omega (arith, h.0, Between-le k hi l h.1)

last_key-le : (lo hi k : ℕ) (l : List LogEntry) → Between lo hi l → last_key l ≡ some k → k ≤ hi
unfolding last_key
last_key-le lo hi k [] h e = ground (arith, e)
last_key-le lo hi k ((j, v) ∷ []) h e = ground (arith, e, h.1)
last_key-le lo hi k ((j, v) ∷ f ∷ l) h e = last_key-le j hi k (f ∷ l) h.1 e

next_seq_lem : (l : BboltLog) → WellFormed l → next_seq l ≡ load_hi_seq l.hi_seq + 1
unfolding next_seq
next_seq_lem l h = elim (Option-cases (last_key l.entries)) [
  | inl n ↦ rw n (ground (arith, h.1))
  | inr (k, s) ↦ rw s (ground (arith, h.1, last_key-le 0 (load_hi_seq l.hi_seq) k l.entries h.0 s))
]

put_entry_last :
    (lo hi n : ℕ) (v : Option Op) (l : List LogEntry)
    → Between lo hi l
    → hi < n
    → put_entry n v l ≡ l ++ (n, v) ∷ []
unfolding put_entry
put_entry_last lo hi n v [] h q = refl
put_entry_last lo hi n v ((k, w) ∷ l) h q =
    ground (arith, put_entry_last k hi n v l h.1 q, Between-le k hi l h.1)

Between-snoc :
    (lo hi n : ℕ) (v : Option Op) (l : List LogEntry)
    → Between lo hi l
    → hi < n
    → Between lo n (l ++ (n, v) ∷ [])
Between-snoc lo hi n v [] h q = (omega (arith, h, q), omega arith)
Between-snoc lo hi n v ((k, w) ∷ l) h q = (h.0, Between-snoc k hi n v l h.1 q)

-- An append to a log in good order numbers the operation one past the high mark and puts it last;
-- the number becomes the high mark.
pub append_last :
    (l : BboltLog) (op : Op)
    → WellFormed l
    → let n = load_hi_seq l.hi_seq + 1 in
      append true l op
      ≡ some (
        n,
        record l { entries = l.entries ++ (n, some (record op { seq = n })) ∷ []; hi_seq = some n },
      )
unfolding append
append_last l op h =
    let hi = load_hi_seq l.hi_seq in
    rw
      (
        next_seq_lem l h,
        put_entry_last 0 hi (hi + 1) (some (record op { seq = hi + 1 })) l.entries h.0
            (omega arith),
      )
      refl

parsed-append : (xs ys : List LogEntry) → parsed (xs ++ ys) ≡ parsed xs ++ parsed ys
unfolding parsed
parsed-append [] ys = refl
parsed-append ((k, none) ∷ xs) ys = parsed-append xs ys
parsed-append ((k, some op) ∷ xs) ys = ap (λ l. op ∷ l) (parsed-append xs ys)

seek-beyond : (n : ℕ) (l : List LogEntry) → seek (n + 1) l ≡ beyond n l
unfolding seek beyond
seek-beyond n [] = refl
seek-beyond n ((k, v) ∷ l) = ground (arith, seek-beyond n l)

beyond_zero : (hi : ℕ) (l : List LogEntry) → Between 0 hi l → beyond 0 l ≡ l
unfolding beyond
beyond_zero hi [] h = refl
beyond_zero hi ((k, v) ∷ l) h = ground (arith, h.0)

replay-beyond :
    (l : BboltLog) (n : ℕ)
    → WellFormed l
    → n + 1 < 2 ^ 64
    → replay l n ≡ parsed (beyond n l.entries)
unfolding replay
replay-beyond l n h q = elim (Bool-cases (n == 0)) [
  | inl z ↦ ground (arith, z, beyond_zero (load_hi_seq l.hi_seq) l.entries h.0)
  | inr z ↦ ground (arith, z, seek-beyond n l.entries)
]

up_to-beyond : (n : ℕ) (l : List LogEntry) → up_to n l ++ beyond n l ≡ l
unfolding up_to beyond
up_to-beyond n [] = refl
up_to-beyond n ((k, v) ∷ l) = ground (arith, up_to-beyond n l)

-- Each number cuts a log in good order in two: what `Prefix` returns, then what `Replay` returns,
-- is the whole.
pub prefix-replay :
    (l : BboltLog) (n : ℕ) → WellFormed l → n + 1 < 2 ^ 64 → prefix l n ++ replay l n ≡ replay l 0
unfolding prefix
prefix-replay l n h q =
    rw
      (
        replay-beyond l n h q,
        replay-beyond l 0 h (omega arith),
        beyond_zero (load_hi_seq l.hi_seq) l.entries h.0,
        ← parsed-append (up_to n l.entries) (beyond n l.entries),
        up_to-beyond n l.entries,
      )
      refl

beyond-snoc :
    (n k : ℕ) (v : Option Op) (l : List LogEntry)
    → n < k
    → beyond n (l ++ (k, v) ∷ []) ≡ beyond n l ++ (k, v) ∷ []
unfolding beyond
beyond-snoc n k v [] q = ground (arith, q)
beyond-snoc n k v ((j, w) ∷ l) q = ground (arith, beyond-snoc n k v l q)

-- An operation that is appended to a log in good order with numbers left comes last in each
-- replay from below its number, which is above the high mark, and the log stays in good order.
pub replay-append :
    (l m : BboltLog) (op : Op) (n seq : ℕ)
    → WellFormed l
    → n ≤ load_hi_seq l.hi_seq
    → load_hi_seq l.hi_seq + 2 < 2 ^ 64
    → append true l op ≡ some (seq, m)
    → (replay m n ≡ replay l n ++ record op { seq = seq } ∷ [])
      × WellFormed m
      × (load_hi_seq l.hi_seq < seq)
replay-append l m op n seq h q room e =
    subst
      (λ (p : ℕ × BboltLog).
        (replay p.1 n ≡ replay l n ++ record op { seq = p.0 } ∷ [])
        × WellFormed p.1
        × (load_hi_seq l.hi_seq < p.0))
      same_result (reads, grown, omega arith)
  where
    hi : ℕ
    hi = load_hi_seq l.hi_seq

    stamped : Op
    stamped = record op { seq = hi + 1 }

    k : BboltLog
    k = record l { entries = l.entries ++ (hi + 1, some stamped) ∷ []; hi_seq = some (hi + 1) }

    same_result : ◌≡◌ {A = ℕ × BboltLog} (hi + 1, k) (seq, m)
    same_result = ground (arith, e, append_last l op h)

    grown : WellFormed k
    grown =
        (Between-snoc 0 hi (hi + 1) (some stamped) l.entries h.0 (omega arith), omega (arith, room))

    reads : replay k n ≡ replay l n ++ stamped ∷ []
    reads =
        rw
          (
            replay-beyond k n grown (omega (arith, q, room)),
            replay-beyond l n h (omega (arith, q, room)),
            beyond-snoc n (hi + 1) (some stamped) l.entries (omega (arith, q)),
            parsed-append (beyond n l.entries) ((hi + 1, some stamped) ∷ []),
          )
          (unfold parsed in refl)

beyond-beyond : (n m : ℕ) (l : List LogEntry) → n ≤ m → beyond m (beyond n l) ≡ beyond m l
unfolding beyond
beyond-beyond n m [] q = refl
beyond-beyond n m ((k, v) ∷ l) q = ground (arith, beyond-beyond n m l q)

beyond-Between : (lo hi n : ℕ) (l : List LogEntry) → Between lo hi l → Between lo hi (beyond n l)
unfolding beyond
beyond-Between lo hi n [] h = h
beyond-Between lo hi n ((k, v) ∷ l) h =
    ground (arith, h, raise (beyond n l) (beyond-Between k hi n l h.1))
  where
    raise : (m : List LogEntry) → Between k hi m → Between lo hi m
    raise [] b = omega (arith, b, h.0)
    raise ((j, w) ∷ m) b = (omega (arith, b.0, h.0), b.1)

up_to-beyond_nil : (n : ℕ) (l : List LogEntry) → up_to n (beyond n l) ≡ []
unfolding up_to beyond
up_to-beyond_nil n [] = refl
up_to-beyond_nil n ((k, v) ∷ l) = ground (arith, up_to-beyond_nil n l)

-- A truncation of a log in good order drops what lies below the number and nothing else: no
-- operation up to the number is left, a replay from there on reads what it read before, and the
-- high mark stays, so that no number is given twice.
pub truncate-replay :
    (l : BboltLog) (n m : ℕ) {t : BboltLog}
    → WellFormed l
    → n ≤ m
    → m + 1 < 2 ^ 64
    → truncate true l n ≡ some t
    → (prefix t n ≡ [])
      × (replay t m ≡ replay l m)
      × WellFormed t
      × (t.hi_seq ≡ l.hi_seq)
      × (t.epoch ≡ l.epoch)
truncate-replay l n m {t} h q room e =
    subst
      (λ (x : BboltLog).
        (prefix x n ≡ [])
        × (replay x m ≡ replay l m)
        × WellFormed x
        × (x.hi_seq ≡ l.hi_seq)
        × (x.epoch ≡ l.epoch))
      same_result (empty, reads, kept, refl, refl)
  where
    u : BboltLog
    u = record l { entries = beyond n l.entries }

    same_result : u ≡ t
    same_result = unfold truncate in ground (arith, e)

    kept : WellFormed u
    kept = (beyond-Between 0 (load_hi_seq l.hi_seq) n l.entries h.0, h.1)

    empty : prefix u n ≡ []
    empty = unfold prefix in rw (up_to-beyond_nil n l.entries) (unfold parsed in refl)

    reads : replay u m ≡ replay l m
    reads =
        rw (replay-beyond u m kept room, replay-beyond l m h room, beyond-beyond n m l.entries q)
          refl
