-- ===== src/Server/Manager/Attached.antt =====
-- A session in the table of which no reap is on its way, at each action.
use g_mountie.Prelude.{
  ℕ, ◌≡◌, ◌≢◌, inl, inr, refl, sym, ◌∙◌, subst, Bool, true, false, ◌&&◌, Option, none, some, List,
  [], ◌∷◌, ◌==◌, ltb, count, remove_one, count-remove_one, All, get, del, get-put_ne, get-put_self,
  get-del_self, get-del_ne, Bytes, ℕ_discrete, Bool-cases, arith,
}
use g_mountie.Server.Manager.{
  has_reap, remove_reap, Holder, SessionManager, has_session, create, look_marking, schedule,
  store_reaper, cancel_found, cancel_reaper, look_resuming, resume_reaper, quit, fire_found, fire,
  take_session, claim_fired, revoke_found, revoke, cancel_revoked, shut, reap, ManagerStep, creates,
  looks_marking, stores_reaper, looks_resuming, resumes_reaper, claims_fired, cancels_revoked,
  shuts, reaps_session, stops_reaper, quits, fires, revokes, manager_step, manager_steps,
}

-- The steps that may end a session that is not marked.
abbrev pub ends_session : ℕ → ManagerStep → Bool
ends_session id (looks_marking k) = k == id
ends_session id (revokes pred k) = k == id
ends_session id (shuts k) = k == id
ends_session id _ = false

-- The session is in the table, and no reap of it is on its way.
abbrev pub Attached : ℕ → SessionManager → Type 0
Attached id m =
    (has_session m id ≡ true)
    × (get ℕ_discrete m.reapers id ≡ none)
    × (count id m.fired ≡ 0)
    × (count id m.marking ≡ 0)

create-Attached :
    (m : SessionManager) (k : ℕ) (h : Holder) (id : ℕ) → Attached id m → Attached id (create m k h)
unfolding create has_session
create-Attached m k h id (a, b, c, d) = elim (ℕ_discrete k id) [
  | yes p ↦ rw p (rw (get-put_self ℕ_discrete m.sessions id h) (refl, b, c, d))
  | no n ↦ rw (get-put_ne ℕ_discrete m.sessions k id h n) (a, b, c, d)
]

look_marking-Attached :
    (m : SessionManager) (k id : ℕ)
    → (k == id) ≡ false
    → Attached id m
    → Attached id (look_marking m k)
unfolding look_marking has_session
look_marking-Attached m k id n (a, b, c, d) = elim (Bool-cases (has_session m k)) [
  | inl y ↦ rw y (a, b, c, ground (arith, n, d))
  | inr z ↦ rw z (a, b, c, d)
]

schedule-Attached :
    (m : SessionManager) (k : ℕ) (r : Option ℕ) (id : ℕ)
    → k ≢ id
    → Attached id m
    → Attached id (schedule m k r)
unfolding has_session
schedule-Attached m k (some r) id n h = h
schedule-Attached m k none id n (a, b, c, d) =
    (a, get-put_ne ℕ_discrete m.reapers k id m.next_reaper n ∙ b, c, d)

store_reaper-Attached :
    (m : SessionManager) (k id : ℕ) → Attached id m → Attached id (store_reaper m k)
unfolding store_reaper has_session
store_reaper-Attached m k id (a, b, c, d) = elim (Bool-cases (ltb 0 (count k m.marking))) [
  | inl y ↦
      let left = record m { marking = remove_one k m.marking } in
      let other : k ≢ id =
        λ e. absurd (ground (arith, y, (subst (λ i. count i m.marking ≡ 0) (sym e) d))) in
      let fewer = count-remove_one id k m.marking (ground (arith, y)) in
      rw y (
        schedule-Attached left k (get ℕ_discrete m.reapers k) id other
          (a, b, c, omega (arith, fewer, d)))
  | inr n ↦ rw n (a, b, c, d)
]

cancel_found-Attached :
    (m : SessionManager) (k : ℕ) (r : Option ℕ) (id : ℕ)
    → Attached id m
    → Attached id (cancel_found m k r)
unfolding has_session
cancel_found-Attached m k none id h = h
cancel_found-Attached m k (some r) id (a, b, c, d) = elim (ℕ_discrete k id) [
  | yes p ↦ (
    a,
    subst (λ i. get ℕ_discrete (del ℕ_discrete m.reapers i) id ≡ none) (sym p)
        (get-del_self ℕ_discrete m.reapers id),
    c,
    d,
  )
  | no n ↦ (a, get-del_ne ℕ_discrete m.reapers k id n ∙ b, c, d)
]

cancel_reaper-Attached :
    (m : SessionManager) (k id : ℕ) → Attached id m → Attached id (cancel_reaper m k)
unfolding cancel_reaper
cancel_reaper-Attached m k id h = cancel_found-Attached m k (get ℕ_discrete m.reapers k) id h

look_resuming-Attached :
    (m : SessionManager) (k id : ℕ) → Attached id m → Attached id (look_resuming m k).0
unfolding look_resuming has_session
look_resuming-Attached m k id h = elim (Bool-cases (has_session m k)) [
  | inl y ↦ rw y h
  | inr n ↦ rw n h
]

resume_reaper-Attached :
    (m : SessionManager) (k id : ℕ) → Attached id m → Attached id (resume_reaper m k)
unfolding resume_reaper has_session
resume_reaper-Attached m k id h = elim (Bool-cases (ltb 0 (count k m.resuming))) [
  | inl y ↦ rw y (cancel_reaper-Attached (record m { resuming = remove_one k m.resuming }) k id h)
  | inr n ↦ rw n h
]

quit-Attached : (m : SessionManager) (k r id : ℕ) → Attached id m → Attached id (quit m k r)
unfolding quit has_session
quit-Attached m k r id h = elim (Bool-cases (has_reap k r m.waiting && has_reap k r m.cancelled)) [
  | inl y ↦ rw y h
  | inr n ↦ rw n h
]

-- A goroutine that claims a pending reap claims one of another session.
fire_found-Attached :
    (m : SessionManager) (k : ℕ) (r : Option ℕ) (id : ℕ)
    → get ℕ_discrete m.reapers k ≡ r
    → Attached id m
    → Attached id (fire_found m k r)
unfolding has_session
fire_found-Attached m k none id e h = h
fire_found-Attached m k (some r) id e (a, b, c, d) = elim (ℕ_discrete k id) [
  | yes p ↦ absurd (ground (arith, b, (subst (λ i. get ℕ_discrete m.reapers i ≡ some r) p e)))
  | no n ↦ (a, get-del_ne ℕ_discrete m.reapers k id n ∙ b, ground (arith, n, c), d)
]

fire-Attached : (m : SessionManager) (k r id : ℕ) → Attached id m → Attached id (fire m k r)
unfolding fire has_session
fire-Attached m k r id h = elim (Bool-cases (has_reap k r m.waiting)) [
  | inl y ↦
      let left = record m { waiting = remove_reap k r m.waiting } in
      rw y (fire_found-Attached left k (get ℕ_discrete m.reapers k) id refl h)
  | inr n ↦ rw n h
]

take_session-Attached :
    (m : SessionManager) (k id : ℕ) → k ≢ id → Attached id m → Attached id (take_session m k)
unfolding has_session
take_session-Attached m k id n (a, b, c, d) =
    (rw (get-del_ne ℕ_discrete m.sessions k id n) a, b, c, d)

claim_fired-Attached :
    (m : SessionManager) (k id : ℕ) → Attached id m → Attached id (claim_fired m k)
unfolding claim_fired has_session
claim_fired-Attached m k id (a, b, c, d) = elim (Bool-cases (ltb 0 (count k m.fired))) [
  | inl y ↦
      let left = record m { fired = remove_one k m.fired } in
      let other : k ≢ id =
        λ e. absurd (ground (arith, y, (subst (λ i. count i m.fired ≡ 0) (sym e) c))) in
      let fewer = count-remove_one id k m.fired (ground (arith, y)) in
      let h : Attached id left = (a, b, omega (arith, fewer, c), d) in
      rw y (elim (Bool-cases (has_session m k)) [
        | inl z ↦ rw z (take_session-Attached left k id other h)
        | inr w ↦ rw w h
      ])
  | inr n ↦ rw n (a, b, c, d)
]

revoke_found-Attached :
    (m : SessionManager) (pred : Bytes → Bytes → Bool) (k : ℕ) (x : Option Holder) (id : ℕ)
    → k ≢ id
    → Attached id m
    → Attached id (revoke_found m pred k x)
unfolding has_session
revoke_found-Attached m pred k none id n h = h
revoke_found-Attached m pred k (some x) id n (a, b, c, d) =
    elim (Bool-cases (pred x.principal x.serial)) [
      | inl y ↦ rw y (rw (get-del_ne ℕ_discrete m.sessions k id n) a, b, c, d)
      | inr w ↦ rw w (a, b, c, d)
    ]

revoke-Attached :
    (m : SessionManager) (pred : Bytes → Bytes → Bool) (k id : ℕ)
    → k ≢ id
    → Attached id m
    → Attached id (revoke m pred k)
unfolding revoke
revoke-Attached m pred k id n h =
    revoke_found-Attached m pred k (get ℕ_discrete m.sessions k) id n h

cancel_revoked-Attached :
    (m : SessionManager) (k id : ℕ) → Attached id m → Attached id (cancel_revoked m k)
unfolding cancel_revoked has_session
cancel_revoked-Attached m k id h = elim (Bool-cases (ltb 0 (count k m.revoked))) [
  | inl y ↦
      let left = record m { revoked = remove_one k m.revoked; claimed = k ∷ m.claimed } in
      rw y (cancel_reaper-Attached left k id h)
  | inr n ↦ rw n h
]

shut-Attached : (m : SessionManager) (k id : ℕ) → k ≢ id → Attached id m → Attached id (shut m k)
unfolding shut
shut-Attached m k id n h = elim (Bool-cases (has_session m k)) [
  | inl y ↦ rw y (take_session-Attached m k id n h)
  | inr w ↦ rw w h
]

reap-Attached : (m : SessionManager) (k id : ℕ) → Attached id m → Attached id (reap m k)
unfolding reap has_session
reap-Attached m k id h = elim (Bool-cases (ltb 0 (count k m.claimed))) [
  | inl y ↦ rw y h
  | inr n ↦ rw n h
]

manager_step-Attached :
    (m : SessionManager) (s : ManagerStep) (id : ℕ)
    → ends_session id s ≡ false
    → Attached id m
    → Attached id (manager_step m s)
unfolding manager_step
manager_step-Attached m (creates k x) id n h = create-Attached m k x id h
manager_step-Attached m (looks_marking k) id n h = look_marking-Attached m k id n h
manager_step-Attached m (stores_reaper k) id n h = store_reaper-Attached m k id h
manager_step-Attached m (looks_resuming k) id n h = look_resuming-Attached m k id h
manager_step-Attached m (resumes_reaper k) id n h = resume_reaper-Attached m k id h
manager_step-Attached m (claims_fired k) id n h = claim_fired-Attached m k id h
manager_step-Attached m (cancels_revoked k) id n h = cancel_revoked-Attached m k id h
manager_step-Attached m (shuts k) id n h = shut-Attached m k id (ground (arith, n)) h
manager_step-Attached m (reaps_session k) id n h = reap-Attached m k id h
manager_step-Attached m (stops_reaper k) id n h = cancel_reaper-Attached m k id h
manager_step-Attached m (quits k r) id n h = quit-Attached m k r id h
manager_step-Attached m (fires k r) id n h = fire-Attached m k r id h
manager_step-Attached m (revokes pred k) id n h = revoke-Attached m pred k id (ground (arith, n)) h

pub manager_steps-Attached :
    (m : SessionManager) (steps : List ManagerStep) (id : ℕ)
    → All (λ s. ends_session id s ≡ false) steps
    → Attached id m
    → Attached id (manager_steps m steps)
unfolding manager_steps
manager_steps-Attached m [] id n h = h
manager_steps-Attached m (s ∷ steps) id (n, ns) h =
    manager_steps-Attached (manager_step m s) steps id ns (manager_step-Attached m s id n h)
