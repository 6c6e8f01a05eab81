-- ===== src/Server/Manager/Tests.antt =====
-- Runs of the session manager, and the theorems at them.
use g_mountie.Prelude.{
  ◌≡◌, refl, arith, true, false, List, [], ◌∷◌, count, get, put, del, ℕ_discrete,
}
use g_mountie.Server.Manager.{
  Holder, SessionManager, new_session_manager, create, has_session, look_resuming, look_marking,
  store_reaper, fire, claim_fired, reap, ManagerStep, creates, looks_marking, stores_reaper,
  looks_resuming, resumes_reaper, claims_fired, reaps_session, fires, manager_step, manager_steps,
}
use g_mountie.Server.Manager.Grace.{places, places_created}
use g_mountie.Server.Manager.Resumes.{resumed_stays, resumed_late}

abbrev holder : Holder
holder = record { principal = 97 ∷ []; serial = 1 ∷ [] }

-- A session that is made, and whose connection breaks off for good.
abbrev expire : List ManagerStep
expire =
    creates 7 holder
    ∷ looks_marking 7
    ∷ stores_reaper 7
    ∷ fires 7 0
    ∷ claims_fired 7
    ∷ reaps_session 7
    ∷ []

made_once : count 7 (manager_steps new_session_manager expire).created ≡ 1
unfolding manager_steps manager_step create look_marking store_reaper fire claim_fired reap
    has_session get put ℕ_discrete
made_once = refl

expired : has_session (manager_steps new_session_manager expire) 7 ≡ false
unfolding manager_steps manager_step create look_marking store_reaper fire claim_fired reap
    has_session get put del ℕ_discrete
expired = refl

places_created_example : places (manager_steps new_session_manager expire) 7 ≡ 1
places_created_example = places_created expire 7 made_once

abbrev marked : SessionManager
marked = record new_session_manager {
  sessions = (7, holder) ∷ [];
  reapers = (7, 0) ∷ [];
  next_reaper = 1;
  waiting = (7, 0) ∷ [];
  created = 7 ∷ [];
}

there : has_session marked 7 ≡ true
unfolding has_session get ℕ_discrete
there = refl

resumed_stays_example :
    has_session
      (manager_steps marked (looks_resuming 7 ∷ resumes_reaper 7 ∷ fires 7 0 ∷ claims_fired 7 ∷ []))
      7
    ≡ true
resumed_stays_example =
    resumed_stays marked 7 (fires 7 0 ∷ claims_fired 7 ∷ []) there refl refl (refl, (refl, tt))

-- The timer has claimed the reap.
abbrev timed_out : SessionManager
timed_out = record new_session_manager {
  sessions = (7, holder) ∷ [];
  created = 7 ∷ [];
  fired = 7 ∷ [];
}

still_there : has_session timed_out 7 ≡ true
unfolding has_session get ℕ_discrete
still_there = refl

resumed_late_example :
    ((look_resuming timed_out 7).1 ≡ true)
    × (has_session
          (manager_steps timed_out (looks_resuming 7 ∷ resumes_reaper 7 ∷ claims_fired 7 ∷ []))
          7
        ≡ false)
resumed_late_example = resumed_late timed_out 7 still_there (omega arith)
