-- ===== src/Server/Manager/Grace.antt =====
-- The life of one session in the manager: created, marked, resumed, reaped.
use g_mountie.Prelude.{
  ℕ, ◌+◌, ◌≤◌, ◌≡◌, inl, inr, refl, sym, ◌∙◌, subst, Bool, true, ◌&&◌, Option, none, some, List, [],
  ◌∷◌, ◌==◌, ltb, if◌then◌else◌, count, remove_one, count-remove_one, one_if, get, put, del,
  get-put_ne, get-put_self, get-del_self, get-del_ne, Bytes, ℕ_discrete, Bool-cases, arith,
}
use g_mountie.Server.Manager.{
  has_reap, remove_reap, Holder, SessionManager, new_session_manager, is_there, has_session, create,
  look_marking, schedule, store_reaper, cancel_found, cancel_reaper, look_resuming, resume_reaper,
  quit, fire_found, fire, take_session, claim_fired, revoke_found, revoke, cancel_revoked, shut,
  reap, ManagerStep, creates, looks_marking, stores_reaper, looks_resuming, resumes_reaper,
  claims_fired, cancels_revoked, shuts, reaps_session, stops_reaper, quits, fires, revokes,
  manager_step, manager_steps,
}

abbrev held : List (ℕ × Holder) → ℕ → ℕ
held l id = one_if (is_there (get ℕ_discrete l id))

held-put :
    (l : List (ℕ × Holder)) (k : ℕ) (h : Holder) (id : ℕ)
    → held (put ℕ_discrete l k h) id ≡ (if k == id then 1 else held l id)
held-put l k h id = elim (ℕ_discrete k id) [
  | yes p ↦ rw p (rw (get-put_self ℕ_discrete l id h) (ground arith))
  | no n ↦ rw (get-put_ne ℕ_discrete l k id h n) (ground (arith, n))
]

held-del :
    (l : List (ℕ × Holder)) (k id : ℕ)
    → held (del ℕ_discrete l k) id ≡ (if k == id then 0 else held l id)
held-del l k id = elim (ℕ_discrete k id) [
  | yes p ↦ rw p (rw (get-del_self ℕ_discrete l id) (ground arith))
  | no n ↦ rw (get-del_ne ℕ_discrete l k id n) (ground (arith, n))
]

-- Where the session is: in the table, claimed, or reaped.
abbrev pub places : SessionManager → ℕ → ℕ
places m id = held m.sessions id + count id m.revoked + count id m.claimed + count id m.reaped

abbrev Conserved : ℕ → SessionManager → Type 0
Conserved id m = count id m.created ≤ 1 → places m id ≡ count id m.created

held_none : (id : ℕ) → places new_session_manager id ≡ 0
unfolding get
held_none id = refl

create-Conserved :
    (m : SessionManager) (k : ℕ) (h : Holder) (id : ℕ)
    → Conserved id m
    → Conserved id (create m k h)
unfolding create
create-Conserved m k h id c b = ground (arith, b, held-put m.sessions k h id, c)

-- A step that neither makes nor loses the session.
abbrev Moves : ℕ → SessionManager → SessionManager → Type 0
Moves id m t = (places t id ≡ places m id) × (count id t.created ≡ count id m.created)

look_marking-Moves : (m : SessionManager) (k id : ℕ) → Moves id m (look_marking m k)
unfolding look_marking
look_marking-Moves m k id = elim (Bool-cases (has_session m k)) [
  | inl y ↦ rw y (refl, refl)
  | inr n ↦ rw n (refl, refl)
]

schedule-Moves : (m : SessionManager) (k : ℕ) (r : Option ℕ) (id : ℕ) → Moves id m (schedule m k r)
schedule-Moves m k none id = (refl, refl)
schedule-Moves m k (some r) id = (refl, refl)

store_reaper-Moves : (m : SessionManager) (k id : ℕ) → Moves id m (store_reaper m k)
unfolding store_reaper
store_reaper-Moves m k id = elim (Bool-cases (ltb 0 (count k m.marking))) [
  | inl y ↦ rw y (
      schedule-Moves (record m { marking = remove_one k m.marking }) k (get ℕ_discrete m.reapers k)
        id)
  | inr n ↦ rw n (refl, refl)
]

cancel_found-Moves :
    (m : SessionManager) (k : ℕ) (r : Option ℕ) (id : ℕ) → Moves id m (cancel_found m k r)
cancel_found-Moves m k none id = (refl, refl)
cancel_found-Moves m k (some r) id = (refl, refl)

cancel_reaper-Moves : (m : SessionManager) (k id : ℕ) → Moves id m (cancel_reaper m k)
unfolding cancel_reaper
cancel_reaper-Moves m k id = cancel_found-Moves m k (get ℕ_discrete m.reapers k) id

look_resuming-Moves : (m : SessionManager) (k id : ℕ) → Moves id m (look_resuming m k).0
unfolding look_resuming
look_resuming-Moves m k id = elim (Bool-cases (has_session m k)) [
  | inl y ↦ rw y (refl, refl)
  | inr n ↦ rw n (refl, refl)
]

resume_reaper-Moves : (m : SessionManager) (k id : ℕ) → Moves id m (resume_reaper m k)
unfolding resume_reaper
resume_reaper-Moves m k id = elim (Bool-cases (ltb 0 (count k m.resuming))) [
  | inl y ↦ rw y (cancel_reaper-Moves (record m { resuming = remove_one k m.resuming }) k id)
  | inr n ↦ rw n (refl, refl)
]

quit-Moves : (m : SessionManager) (k r id : ℕ) → Moves id m (quit m k r)
unfolding quit
quit-Moves m k r id = elim (Bool-cases (has_reap k r m.waiting && has_reap k r m.cancelled)) [
  | inl y ↦ rw y (refl, refl)
  | inr n ↦ rw n (refl, refl)
]

fire_found-Moves :
    (m : SessionManager) (k : ℕ) (r : Option ℕ) (id : ℕ) → Moves id m (fire_found m k r)
fire_found-Moves m k none id = (refl, refl)
fire_found-Moves m k (some r) id = (refl, refl)

fire-Moves : (m : SessionManager) (k r id : ℕ) → Moves id m (fire m k r)
unfolding fire
fire-Moves m k r id = elim (Bool-cases (has_reap k r m.waiting)) [
  | inl y ↦ rw y (
      fire_found-Moves (record m { waiting = remove_reap k r m.waiting }) k
        (get ℕ_discrete m.reapers k) id)
  | inr n ↦ rw n (refl, refl)
]

take_session-Moves :
    (m : SessionManager) (k id : ℕ) → has_session m k ≡ true → Moves id m (take_session m k)
unfolding has_session
take_session-Moves m k id h = elim (ℕ_discrete k id) [
  | yes p ↦
      let there : is_there (get ℕ_discrete m.sessions id) ≡ true =
        subst (λ i. is_there (get ℕ_discrete m.sessions i) ≡ true) p h in
      (ground (arith, p, there, held-del m.sessions k id), refl)
  | no n ↦ (ground (arith, n, held-del m.sessions k id), refl)
]

claim_fired-Moves : (m : SessionManager) (k id : ℕ) → Moves id m (claim_fired m k)
unfolding claim_fired
claim_fired-Moves m k id = elim (Bool-cases (ltb 0 (count k m.fired))) [
  | inl y ↦ rw y (elim (Bool-cases (has_session m k)) [
    | inl z ↦ rw z (take_session-Moves m k id z)
    | inr w ↦ rw w (refl, refl)
  ])
  | inr n ↦ rw n (refl, refl)
]

revoke_found-Moves :
    (m : SessionManager) (pred : Bytes → Bytes → Bool) (k : ℕ) (h : Option Holder) (id : ℕ)
    → get ℕ_discrete m.sessions k ≡ h
    → Moves id m (revoke_found m pred k h)
revoke_found-Moves m pred k none id e = (refl, refl)
revoke_found-Moves m pred k (some h) id e = elim (Bool-cases (pred h.principal h.serial)) [
  | inl y ↦ rw y (elim (ℕ_discrete k id) [
    | yes p ↦
        let there : get ℕ_discrete m.sessions id ≡ some h =
          subst (λ i. get ℕ_discrete m.sessions i ≡ some h) p e in
        (ground (arith, p, there, held-del m.sessions k id), refl)
    | no n ↦ (ground (arith, n, held-del m.sessions k id), refl)
  ])
  | inr n ↦ rw n (refl, refl)
]

revoke-Moves :
    (m : SessionManager) (pred : Bytes → Bytes → Bool) (k id : ℕ) → Moves id m (revoke m pred k)
unfolding revoke
revoke-Moves m pred k id = revoke_found-Moves m pred k (get ℕ_discrete m.sessions k) id refl

cancel_revoked-Moves : (m : SessionManager) (k id : ℕ) → Moves id m (cancel_revoked m k)
unfolding cancel_revoked
cancel_revoked-Moves m k id = elim (Bool-cases (ltb 0 (count k m.revoked))) [
  | inl y ↦
      let left = record m { revoked = remove_one k m.revoked; claimed = k ∷ m.claimed } in
      let (p, c) = cancel_reaper-Moves left k id in
      rw y (p ∙ ground (arith, count-remove_one id k m.revoked (ground (arith, y))), c)
  | inr n ↦ rw n (refl, refl)
]

shut-Moves : (m : SessionManager) (k id : ℕ) → Moves id m (shut m k)
unfolding shut
shut-Moves m k id = elim (Bool-cases (has_session m k)) [
  | inl y ↦ rw y (take_session-Moves m k id y)
  | inr n ↦ rw n (refl, refl)
]

reap-Moves : (m : SessionManager) (k id : ℕ) → Moves id m (reap m k)
unfolding reap
reap-Moves m k id = elim (Bool-cases (ltb 0 (count k m.claimed))) [
  | inl y ↦ rw y (ground (arith, count-remove_one id k m.claimed (ground (arith, y))), refl)
  | inr n ↦ rw n (refl, refl)
]

moved : (id : ℕ) (m t : SessionManager) → Moves id m t → Conserved id m → Conserved id t
moved id m t (p, c) h b = p ∙ h (ground (arith, c, b)) ∙ sym c

manager_step-Conserved :
    (m : SessionManager) (s : ManagerStep) (id : ℕ)
    → Conserved id m
    → Conserved id (manager_step m s)
unfolding manager_step
manager_step-Conserved m (creates k h) id c = create-Conserved m k h id c
manager_step-Conserved m (looks_marking k) id c =
    moved id m (look_marking m k) (look_marking-Moves m k id) c
manager_step-Conserved m (stores_reaper k) id c =
    moved id m (store_reaper m k) (store_reaper-Moves m k id) c
manager_step-Conserved m (looks_resuming k) id c =
    moved id m (look_resuming m k).0 (look_resuming-Moves m k id) c
manager_step-Conserved m (resumes_reaper k) id c =
    moved id m (resume_reaper m k) (resume_reaper-Moves m k id) c
manager_step-Conserved m (claims_fired k) id c =
    moved id m (claim_fired m k) (claim_fired-Moves m k id) c
manager_step-Conserved m (cancels_revoked k) id c =
    moved id m (cancel_revoked m k) (cancel_revoked-Moves m k id) c
manager_step-Conserved m (shuts k) id c = moved id m (shut m k) (shut-Moves m k id) c
manager_step-Conserved m (reaps_session k) id c = moved id m (reap m k) (reap-Moves m k id) c
manager_step-Conserved m (stops_reaper k) id c =
    moved id m (cancel_reaper m k) (cancel_reaper-Moves m k id) c
manager_step-Conserved m (quits k r) id c = moved id m (quit m k r) (quit-Moves m k r id) c
manager_step-Conserved m (fires k r) id c = moved id m (fire m k r) (fire-Moves m k r id) c
manager_step-Conserved m (revokes pred k) id c =
    moved id m (revoke m pred k) (revoke-Moves m pred k id) c

manager_steps-Conserved :
    (m : SessionManager) (steps : List ManagerStep) (id : ℕ)
    → Conserved id m
    → Conserved id (manager_steps m steps)
unfolding manager_steps
manager_steps-Conserved m [] id c = c
manager_steps-Conserved m (s ∷ steps) id c =
    manager_steps-Conserved (manager_step m s) steps id (manager_step-Conserved m s id c)

-- In any interleaving of the calls, a session whose id was made once is in exactly one place: in the
-- table, claimed by one caller who has yet to reap it, or reaped, once.
pub places_created :
    (steps : List ManagerStep) (id : ℕ)
    → count id (manager_steps new_session_manager steps).created ≡ 1
    → places (manager_steps new_session_manager steps) id ≡ 1
places_created steps id h =
    let start : Conserved id new_session_manager = λ b. held_none id in
    manager_steps-Conserved new_session_manager steps id start (omega (arith, h)) ∙ h
