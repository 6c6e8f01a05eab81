-- ===== src/Server/Events/Sends.antt =====
-- What one fanout does to one subscriber.
use g_mountie.Prelude.{
  ℕ, ◌+◌, ◌<◌, ◌≡◌, ◌≢◌, inl, inr, refl, Bool, true, not, Option, none, some, List, [], ◌∷◌, ◌++◌,
  count, count-append, one_if, remove_one, if◌then◌else◌, get, put, Bytes, Bytes-discrete,
  ℕ_discrete, get-put_self, get-put_ne, Option-cases, arith, subst, sym, ◌==◌, ◌∙◌,
}
use g_mountie.Server.Events.{
  Event, Subscriber, on_volume, set_volume, terminate, try_send, send_to, fan_one, fan_each,
  remove_locked, remove_each, update, terminate_each,
}

pub count_one : (i j : ℕ) (l : List ℕ) → count i (j ∷ l) ≡ one_if (j == i) + count i l
count_one i j l = ground arith

-- A fanout to others does not touch a subscriber.
fan_one_other :
    (size : ℕ) (ev : Event) (subs : List (ℕ × Subscriber)) (j i : ℕ) (o : Option Subscriber)
    → j ≢ i
    → (get ℕ_discrete (fan_one size ev subs j o).0 i ≡ get ℕ_discrete subs i)
      × (count i (fan_one size ev subs j o).1 ≡ 0)
fan_one_other size ev subs j i none d = (refl, refl)
fan_one_other size ev subs j i (some s) d =
    (get-put_ne ℕ_discrete subs j i (send_to size ev s).0 d, ground (arith, d))

pub fan_each_other :
    (size : ℕ) (ev : Event) (subs : List (ℕ × Subscriber)) (l : List ℕ) (i : ℕ)
    → count i l ≡ 0
    → (get ℕ_discrete (fan_each size ev subs l).0 i ≡ get ℕ_discrete subs i)
      × (count i (fan_each size ev subs l).1 ≡ 0)
unfolding fan_each
fan_each_other size ev subs [] i h = (refl, refl)
fan_each_other size ev subs (j ∷ l) i h =
    let d : j ≢ i = ground (arith, h) in
    let one = fan_one_other size ev subs j i (get ℕ_discrete subs j) d in
    let st = fan_one size ev subs j (get ℕ_discrete subs j) in
    let rest = fan_each_other size ev st.0 l i (ground (arith, h)) in
    (
      rest.0 ∙ one.0,
      count-append i st.1 (fan_each size ev st.0 l).1 ∙ (omega (arith, one.1, rest.1)),
    )

-- What a fanout to `l` owes to a subscriber that is listed once.
abbrev Sent : ℕ → Event → List (ℕ × Subscriber) → ℕ → Subscriber → List ℕ → Type 0
Sent size ev subs i s l =
    (get ℕ_discrete (fan_each size ev subs l).0 i ≡ some (send_to size ev s).0)
    × (count i (fan_each size ev subs l).1 ≡ one_if (not (send_to size ev s).1))

count_dropped :
    (b : Bool) (i : ℕ) (l : List ℕ)
    → count i l ≡ 0
    → count i ((if b then [] else i ∷ []) ++ l) ≡ one_if (not b)
count_dropped b i l h = ground (arith, h)

Sent-head :
    (size : ℕ) (ev : Event) (subs : List (ℕ × Subscriber)) (l : List ℕ) (i : ℕ) (s : Subscriber)
    → count i l ≡ 0
    → get ℕ_discrete subs i ≡ some s
    → Sent size ev subs i s (i ∷ l)
unfolding fan_each
Sent-head size ev subs l i s h g =
    let t = put ℕ_discrete subs i (send_to size ev s).0 in
    let rest = fan_each_other size ev t l i h in
    rw (g, fan_each)
      (
        rest.0 ∙ get-put_self ℕ_discrete subs i (send_to size ev s).0,
        count_dropped (send_to size ev s).1 i (fan_each size ev t l).1 rest.1,
      )

-- A fanout sends once to a subscriber that is listed once, and drops it if the send fails.
pub fan_each_listed :
    (size : ℕ) (ev : Event) (subs : List (ℕ × Subscriber)) (l : List ℕ) (i : ℕ) (s : Subscriber)
    → count i l ≡ 1
    → get ℕ_discrete subs i ≡ some s
    → Sent size ev subs i s l
unfolding fan_each
fan_each_listed size ev subs [] i s h g = absurd (ground (arith, h))
fan_each_listed size ev subs (j ∷ l) i s h g = elim (ℕ_discrete j i) [
  | yes q ↦
      subst (λ k. Sent size ev subs i s (k ∷ l)) (sym q)
        (Sent-head size ev subs l i s (ground (arith, h, q)) g)
  | no d ↦
      let one = fan_one_other size ev subs j i (get ℕ_discrete subs j) d in
      let st = fan_one size ev subs j (get ℕ_discrete subs j) in
      let rest = fan_each_listed size ev st.0 l i s (ground (arith, h, d)) (one.0 ∙ g) in
      (rest.0, count-append i st.1 (fan_each size ev st.0 l).1 ∙ (omega (arith, one.1, rest.1)))
]

pub update_other :
    (subs : List (ℕ × Subscriber)) (i j : ℕ) (f : Subscriber → Subscriber)
    → j ≢ i
    → get ℕ_discrete (update subs j f (get ℕ_discrete subs j)) i ≡ get ℕ_discrete subs i
update_other subs i j f d = elim (Option-cases (get ℕ_discrete subs j)) [
  | inl n ↦ rw n refl
  | inr (t, q) ↦ rw q (get-put_ne ℕ_discrete subs j i (f t) d)
]

pub update_self :
    (subs : List (ℕ × Subscriber)) (i : ℕ) (f : Subscriber → Subscriber) (s : Subscriber)
    → get ℕ_discrete subs i ≡ some s
    → get ℕ_discrete (update subs i f (get ℕ_discrete subs i)) i ≡ some (f s)
update_self subs i f s g = rw g (get-put_self ℕ_discrete subs i (f s))

-- A subscription that has ended stays so.
abbrev pub Ended : List (ℕ × Subscriber) → ℕ → Type 0
Ended subs i = (s : Subscriber) × (get ℕ_discrete subs i ≡ some s) × (s.done ≡ true)

send_to_done :
    (size : ℕ) (ev : Event) (s : Subscriber) → s.done ≡ true → (send_to size ev s).0.done ≡ true
unfolding send_to try_send
send_to_done size ev s h = ground (arith, h)

pub update-Ended :
    (subs : List (ℕ × Subscriber)) (i j : ℕ) (f : Subscriber → Subscriber)
    → ((s : Subscriber) → s.done ≡ true → (f s).done ≡ true)
    → Ended subs i
    → Ended (update subs j f (get ℕ_discrete subs j)) i
update-Ended subs i j f keeps (s, g, d) = elim (ℕ_discrete j i) [
  | yes q ↦ rw q (f s, update_self subs i f s g, keeps s d)
  | no n ↦ (s, update_other subs i j f n ∙ g, d)
]

fan_one-update :
    (size : ℕ) (ev : Event) (subs : List (ℕ × Subscriber)) (j : ℕ)
    → (fan_one size ev subs j (get ℕ_discrete subs j)).0
      ≡ update subs j (λ s. (send_to size ev s).0) (get ℕ_discrete subs j)
fan_one-update size ev subs j = elim (Option-cases (get ℕ_discrete subs j)) [
  | inl n ↦ rw n refl
  | inr (t, q) ↦ rw q refl
]

pub fan_each-Ended :
    (size : ℕ) (ev : Event) (subs : List (ℕ × Subscriber)) (l : List ℕ) (i : ℕ)
    → Ended subs i
    → Ended (fan_each size ev subs l).0 i
unfolding fan_each
fan_each-Ended size ev subs [] i h = h
fan_each-Ended size ev subs (j ∷ l) i h =
    let t = (fan_one size ev subs j (get ℕ_discrete subs j)).0 in
    fan_each-Ended size ev t l i (
      rw (fan_one-update size ev subs j)
        (update-Ended subs i j (λ s. (send_to size ev s).0) (send_to_done size ev) h))

-- `Close` ends all that are listed.
pub terminate_each-Ended :
    (subs : List (ℕ × Subscriber)) (l : List ℕ) (i : ℕ)
    → Ended subs i
    → Ended (terminate_each subs l) i
unfolding terminate_each terminate
terminate_each-Ended subs [] i h = h
terminate_each-Ended subs (j ∷ l) i h =
    terminate_each-Ended (update subs j terminate (get ℕ_discrete subs j)) l i
      (update-Ended subs i j terminate (λ s d. refl) h)

pub terminate_each_listed :
    (subs : List (ℕ × Subscriber)) (l : List ℕ) (i : ℕ) (s : Subscriber)
    → get ℕ_discrete subs i ≡ some s
    → 0 < count i l
    → Ended (terminate_each subs l) i
unfolding terminate_each terminate
terminate_each_listed subs [] i s g h = absurd (omega (arith, h))
terminate_each_listed subs (j ∷ l) i s g h = elim (ℕ_discrete j i) [
  | yes q ↦
      let t = update subs j terminate (get ℕ_discrete subs j) in
      let ended : Ended t i = rw q (terminate s, update_self subs i terminate s g, refl) in
      terminate_each-Ended t l i ended
  | no n ↦
      terminate_each_listed (update subs j terminate (get ℕ_discrete subs j)) l i s
        (update_other subs i j terminate n ∙ g) (ground (arith, h, n))
]

-- The places of a subscriber in the volumes' lists.
abbrev pub places : ℕ → List (Bytes × List ℕ) → Bytes → ℕ
places i volumes v = count i (on_volume volumes v)

pub places-set_self :
    (volumes : List (Bytes × List ℕ)) (v : Bytes) (l : List ℕ)
    → on_volume (set_volume volumes v l) v ≡ l
unfolding on_volume set_volume
places-set_self volumes v l = rw (get-put_self Bytes-discrete volumes v l) refl

pub places-set_ne :
    (volumes : List (Bytes × List ℕ)) (v u : Bytes) (l : List ℕ)
    → v ≢ u
    → on_volume (set_volume volumes v l) u ≡ on_volume volumes u
unfolding on_volume set_volume
places-set_ne volumes v u l d = rw (get-put_ne Bytes-discrete volumes v u l d) refl

count-remove_one_ne : (i j : ℕ) (l : List ℕ) → j ≢ i → count i (remove_one j l) ≡ count i l
count-remove_one_ne i j [] d = refl
count-remove_one_ne i j (k ∷ l) d = ground (arith, d, count-remove_one_ne i j l d)

pub places-remove_locked :
    (volumes : List (Bytes × List ℕ)) (v u : Bytes) (i j : ℕ)
    → j ≢ i
    → places i (remove_locked volumes v j) u ≡ places i volumes u
unfolding remove_locked
places-remove_locked volumes v u i j d =
    let l = remove_one j (on_volume volumes v) in
    elim (Bytes-discrete v u) [
      | yes q ↦
          subst
            (λ w. count i (on_volume (set_volume volumes v l) w) ≡ count i (on_volume volumes w)) q
            (rw (places-set_self volumes v l) (count-remove_one_ne i j (on_volume volumes v) d))
      | no n ↦ rw (places-set_ne volumes v u l n) refl
    ]

pub places-remove_each :
    (volumes : List (Bytes × List ℕ)) (v u : Bytes) (i : ℕ) (l : List ℕ)
    → count i l ≡ 0
    → places i (remove_each volumes v l) u ≡ places i volumes u
unfolding remove_each
places-remove_each volumes v u i [] h = refl
places-remove_each volumes v u i (j ∷ l) h =
    places-remove_each (remove_locked volumes v j) v u i l (ground (arith, h))
    ∙ places-remove_locked volumes v u i j (ground (arith, h))
