-- ===== src/Server/Manager.antt =====
-- `sessionManagerImpl` of pkg/server/service/session.go. Each access of the two concurrent maps is one
-- action, and any list of actions is an interleaving; an action whose call is not at that point does
-- nothing. A session's id is a number, and a pending reap is known by the number of its
-- goroutine. The fields from `marking` on are the calls in flight. What `reap` does with the
-- session's files is Server.Sessions.
pub mod Grace
pub mod Attached
pub mod Resumes
mod Tests
use g_mountie.Prelude.{
  ℕ, ◌+◌, Bool, true, false, ◌&&◌, Option, none, some, List, [], ◌∷◌, ◌==◌, ltb, if◌then◌else◌,
  count, remove_one, get, put, del, Bytes, ℕ_discrete,
}

-- The part of `sessionImpl` that the manager reads.
pub record Holder : Type 0 where
  pub principal : Bytes
  pub serial : Bytes

pub record SessionManager : Type 0 where
  pub sessions : List (ℕ × Holder)
  pub reapers : List (ℕ × ℕ)
  pub next_reaper : ℕ
  pub cancelled : List (ℕ × ℕ)  -- the reaps, by session, whose context is done
  pub waiting : List (ℕ × ℕ)  -- goroutines of `MarkDisconnected` before their `select`
  pub created : List ℕ
  pub reaped : List ℕ
  pub marking : List ℕ  -- calls of `MarkDisconnected` past the first look
  pub resuming : List ℕ  -- calls of `Resume` past the first look
  pub fired : List ℕ  -- goroutines that have claimed the pending reap
  pub revoked : List ℕ  -- calls of `ReapIf` that have claimed the session
  pub claimed : List ℕ  -- sessions out of the table, before `reap`

abbrev pub new_session_manager : SessionManager
new_session_manager = record {
  sessions = [];
  reapers = [];
  next_reaper = 0;
  cancelled = [];
  waiting = [];
  created = [];
  reaped = [];
  marking = [];
  resuming = [];
  fired = [];
  revoked = [];
  claimed = [];
}

abbrev pub is_reap : ℕ → ℕ → ℕ × ℕ → Bool
is_reap id r (i, q) = i == id && q == r

abbrev pub has_reap : ℕ → ℕ → List (ℕ × ℕ) → Bool
has_reap id r [] = false
has_reap id r (x ∷ l) = if is_reap id r x then true else has_reap id r l

abbrev pub remove_reap : ℕ → ℕ → List (ℕ × ℕ) → List (ℕ × ℕ)
remove_reap id r [] = []
remove_reap id r (x ∷ l) = if is_reap id r x then l else x ∷ remove_reap id r l

unfoldable pub create : SessionManager → ℕ → Holder → SessionManager
create m id h = record m { sessions = put ℕ_discrete m.sessions id h; created = id ∷ m.created }

abbrev pub is_there : {A : Type 0} → Option A → Bool
is_there none = false
is_there (some a) = true

-- `Load` of the session.
unfoldable pub has_session : SessionManager → ℕ → Bool
has_session m id = is_there (get ℕ_discrete m.sessions id)

unfoldable pub look_marking : SessionManager → ℕ → SessionManager
look_marking m id = if has_session m id then record m { marking = id ∷ m.marking } else m

-- `LoadOrStore` of a new pending reap; a second one is dropped.
abbrev pub schedule : SessionManager → ℕ → Option ℕ → SessionManager
schedule m id (some r) = m
schedule m id none = record m {
  reapers = put ℕ_discrete m.reapers id m.next_reaper;
  waiting = (id, m.next_reaper) ∷ m.waiting;
  next_reaper = m.next_reaper + 1;
}

unfoldable pub store_reaper : SessionManager → ℕ → SessionManager
store_reaper m id =
    let left = record m { marking = remove_one id m.marking } in
    if ltb 0 (count id m.marking) then schedule left id (get ℕ_discrete m.reapers id) else m

-- `LoadAndDelete` of the pending reap, and its `cancel`.
abbrev pub cancel_found : SessionManager → ℕ → Option ℕ → SessionManager
cancel_found m id none = m
cancel_found m id (some r) = record m {
  reapers = del ℕ_discrete m.reapers id;
  cancelled = (id, r) ∷ m.cancelled;
}

unfoldable pub cancel_reaper : SessionManager → ℕ → SessionManager
cancel_reaper m id = cancel_found m id (get ℕ_discrete m.reapers id)

-- `Resume`: what it answers, and its second half.
unfoldable pub look_resuming : SessionManager → ℕ → SessionManager × Bool
look_resuming m id =
    if has_session m id then (record m { resuming = id ∷ m.resuming }, true) else (m, false)

unfoldable pub resume_reaper : SessionManager → ℕ → SessionManager
resume_reaper m id =
    if ltb 0 (count id m.resuming)
    then cancel_reaper (record m { resuming = remove_one id m.resuming }) id
    else m

-- The goroutine takes `ctx.Done`.
unfoldable pub quit : SessionManager → ℕ → ℕ → SessionManager
quit m id r =
    if has_reap id r m.waiting && has_reap id r m.cancelled
    then record m { waiting = remove_reap id r m.waiting }
    else m

abbrev pub fire_found : SessionManager → ℕ → Option ℕ → SessionManager
fire_found m id none = m
fire_found m id (some r) = record m { reapers = del ℕ_discrete m.reapers id; fired = id ∷ m.fired }

-- The goroutine takes `timer.C`, which it may with its context done too.
unfoldable pub fire : SessionManager → ℕ → ℕ → SessionManager
fire m id r =
    let left = record m { waiting = remove_reap id r m.waiting } in
    if has_reap id r m.waiting then fire_found left id (get ℕ_discrete m.reapers id) else m

-- `LoadAndDelete` of the session.
abbrev pub take_session : SessionManager → ℕ → SessionManager
take_session m id = record m { sessions = del ℕ_discrete m.sessions id; claimed = id ∷ m.claimed }

unfoldable pub claim_fired : SessionManager → ℕ → SessionManager
claim_fired m id =
    let left = record m { fired = remove_one id m.fired } in
    if ltb 0 (count id m.fired)
    then (if has_session m id then take_session left id else left)
    else m

-- `ReapIf` at one session of its range.
abbrev pub revoke_found :
    SessionManager → (Bytes → Bytes → Bool) → ℕ → Option Holder → SessionManager
revoke_found m pred id none = m
revoke_found m pred id (some h) =
    if pred h.principal h.serial
    then record m { sessions = del ℕ_discrete m.sessions id; revoked = id ∷ m.revoked }
    else m

unfoldable pub revoke : SessionManager → (Bytes → Bytes → Bool) → ℕ → SessionManager
revoke m pred id = revoke_found m pred id (get ℕ_discrete m.sessions id)

unfoldable pub cancel_revoked : SessionManager → ℕ → SessionManager
cancel_revoked m id =
    let left = record m { revoked = remove_one id m.revoked; claimed = id ∷ m.claimed } in
    if ltb 0 (count id m.revoked) then cancel_reaper left id else m

-- `Stop` at one session of its second range.
unfoldable pub shut : SessionManager → ℕ → SessionManager
shut m id = if has_session m id then take_session m id else m

unfoldable pub reap : SessionManager → ℕ → SessionManager
reap m id =
    if ltb 0 (count id m.claimed)
    then record m { claimed = remove_one id m.claimed; reaped = id ∷ m.reaped }
    else m

pub data ManagerStep : Type 0 where
  creates : ℕ → Holder → ManagerStep
  looks_marking stores_reaper looks_resuming resumes_reaper claims_fired cancels_revoked shuts
        reaps_session stops_reaper :
      ℕ → ManagerStep
  quits fires : ℕ → ℕ → ManagerStep
  revokes : (Bytes → Bytes → Bool) → ℕ → ManagerStep

unfoldable pub manager_step : SessionManager → ManagerStep → SessionManager
manager_step m (creates id h) = create m id h
manager_step m (looks_marking id) = look_marking m id
manager_step m (stores_reaper id) = store_reaper m id
manager_step m (looks_resuming id) = (look_resuming m id).0
manager_step m (resumes_reaper id) = resume_reaper m id
manager_step m (claims_fired id) = claim_fired m id
manager_step m (cancels_revoked id) = cancel_revoked m id
manager_step m (shuts id) = shut m id
manager_step m (reaps_session id) = reap m id
manager_step m (stops_reaper id) = cancel_reaper m id
manager_step m (quits id r) = quit m id r
manager_step m (fires id r) = fire m id r
manager_step m (revokes pred id) = revoke m pred id

unfoldable pub manager_steps : SessionManager → List ManagerStep → SessionManager
manager_steps m [] = m
manager_steps m (s ∷ steps) = manager_steps (manager_step m s) steps
