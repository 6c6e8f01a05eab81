-- ===== src/Server/Manager/Resumes.antt =====
-- Resume against the grace timer.
use g_mountie.Prelude.{
  ℕ, ◌<◌, ◌≡◌, inl, inr, refl, ◌∙◌, true, false, Option, none, some, List, [], ◌∷◌, ltb, count,
  remove_one, All, get, get-del_self, ℕ_discrete, Bool-cases, arith,
}
use g_mountie.Server.Manager.{
  SessionManager, has_session, cancel_found, cancel_reaper, look_resuming, resume_reaper,
  claim_fired, ManagerStep, looks_resuming, resumes_reaper, claims_fired, manager_step,
  manager_steps,
}
use g_mountie.Server.Manager.Attached.{ends_session, Attached, manager_steps-Attached}

-- Nothing of the session but its pending reap is changed by a cancel.
cancel_found-none :
    (m : SessionManager) (id : ℕ) (r : Option ℕ)
    → get ℕ_discrete m.reapers id ≡ r
    → has_session m id ≡ true
    → count id m.fired ≡ 0
    → count id m.marking ≡ 0
    → Attached id (cancel_found m id r)
unfolding has_session
cancel_found-none m id none e a c d = (a, e, c, d)
cancel_found-none m id (some r) e a c d = (a, get-del_self ℕ_discrete m.reapers id, c, d)

resumed-Attached :
    (m : SessionManager) (id : ℕ)
    → has_session m id ≡ true
    → count id m.fired ≡ 0
    → count id m.marking ≡ 0
    → Attached id (resume_reaper (look_resuming m id).0 id)
unfolding look_resuming resume_reaper cancel_reaper has_session
resumed-Attached m id a c d =
    let looked = record m { resuming = id ∷ m.resuming } in
    let one : ltb 0 (count id looked.resuming) ≡ true = ground arith in
    let left = record looked { resuming = remove_one id looked.resuming } in
    rw a (
      rw one (
        cancel_found-none left id (get ℕ_discrete m.reapers id) refl (still m id looked.resuming a)
          c d))
  where
    still :
        (m : SessionManager) (id : ℕ) (l : List ℕ)
        → has_session m id ≡ true
        → has_session (record m { resuming = remove_one id l }) id ≡ true
    still m id l a = a

-- After Resume of a session of which no timer has claimed the reap and no MarkDisconnected is on its
-- way, the session stays, whatever the other calls and the timers of earlier disconnects do, until it is
-- marked again, revoked, or the manager stops.
pub resumed_stays :
    (m : SessionManager) (id : ℕ) (steps : List ManagerStep)
    → has_session m id ≡ true
    → count id m.fired ≡ 0
    → count id m.marking ≡ 0
    → All (λ s. ends_session id s ≡ false) steps
    → has_session (manager_steps m (looks_resuming id ∷ resumes_reaper id ∷ steps)) id ≡ true
unfolding manager_steps manager_step
resumed_stays m id steps a c d n =
    let t = resume_reaper (look_resuming m id).0 id in
    (manager_steps-Attached t steps id n (resumed-Attached m id a c d)).0

lost :
    (m : SessionManager) (id : ℕ) → 0 < count id m.fired → has_session (claim_fired m id) id ≡ false
unfolding claim_fired has_session
lost m id c =
    let late : ltb 0 (count id m.fired) ≡ true = ground (arith, c) in
    rw late (elim (Bool-cases (has_session m id)) [
      | inl y ↦ rw y (rw (get-del_self ℕ_discrete m.sessions id) refl)
      | inr n ↦ rw n n
    ])

cancel_found_fired :
    (m : SessionManager) (k : ℕ) (r : Option ℕ) → (cancel_found m k r).fired ≡ m.fired
cancel_found_fired m k none = refl
cancel_found_fired m k (some r) = refl

resume_reaper_fired : (m : SessionManager) (k : ℕ) → (resume_reaper m k).fired ≡ m.fired
unfolding resume_reaper cancel_reaper
resume_reaper_fired m k = elim (Bool-cases (ltb 0 (count k m.resuming))) [
  | inl y ↦ rw y (
      cancel_found_fired (record m { resuming = remove_one k m.resuming }) k
        (get ℕ_discrete m.reapers k))
  | inr n ↦ rw n refl
]

look_resuming_fired : (m : SessionManager) (k : ℕ) → (look_resuming m k).0.fired ≡ m.fired
unfolding look_resuming
look_resuming_fired m k = elim (Bool-cases (has_session m k)) [
  | inl y ↦ rw y refl
  | inr n ↦ rw n refl
]

look_resuming_there :
    (m : SessionManager) (k : ℕ) → has_session m k ≡ true → (look_resuming m k).1 ≡ true
unfolding look_resuming
look_resuming_there m k y = rw y refl

-- Where a timer has claimed the pending reap and not yet the session, Resume answers that the
-- session is there, and the session is gone once the goroutine goes on.
pub resumed_late :
    (m : SessionManager) (id : ℕ)
    → has_session m id ≡ true
    → 0 < count id m.fired
    → ((look_resuming m id).1 ≡ true)
      × (has_session
            (manager_steps m (looks_resuming id ∷ resumes_reaper id ∷ claims_fired id ∷ []))
            id
          ≡ false)
unfolding manager_steps manager_step
resumed_late m id a c =
    let looked = (look_resuming m id).0 in
    let same_fired = resume_reaper_fired looked id ∙ look_resuming_fired m id in
    (look_resuming_there m id a, lost (resume_reaper looked id) id (rw same_fired c))
