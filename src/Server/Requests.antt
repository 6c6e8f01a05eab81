-- ===== src/Server/Requests.antt =====
-- `DoOnce` of pkg/server/service/session.go and pkg/server/controller/idempotency.go. The LRU cache of
-- the replies is a parameter: what `lookup` answers after its uses. A retried request is any
-- sequence of steps: a call looks, enters the flight of its id or joins it, looks again as its
-- leader, and runs the handler.
pub mod Once
pub mod Guards
use g_mountie.Prelude.{
  ℕ, ◌+◌, ◌≤◌, ◌<◌, Bool, true, false, ◌&&◌, not, Option, none, some, List, [], ◌∷◌, ltb, length,
  count_bytes, remove_bytes, ◌++◌, if◌then◌else◌, Bytes, same,
}
use g_mountie.Paths.{is_empty}

pub data Use (Reply : Type 0) : Type 0 where
  got : Bytes → Use Reply
  added : Bytes → Reply → Use Reply

pub record Calls (Reply : Type 0) : Type 0 where
  pub history : List (Use Reply)  -- the cache, as its uses, the last one first
  pub queued : List Bytes  -- calls that missed
  pub flights : List Bytes  -- the flights of `sf`
  pub joined : List Bytes  -- calls that wait for a flight
  pub running : List Bytes  -- the flights whose handler runs
  pub executed : List Bytes  -- the handlers that ran to a reply
  pub answers : List (Bytes × Reply)

abbrev pub no_calls : {Reply : Type 0} → Calls Reply
no_calls = record {
  history = [];
  queued = [];
  flights = [];
  joined = [];
  running = [];
  executed = [];
  answers = [];
}

pub data CallStep (Reply : Type 0) : Type 0 where
  looks : Bytes → CallStep Reply
  enters : Bytes → CallStep Reply
  looks_again : Bytes → CallStep Reply
  finishes : Bytes → Option Reply → CallStep Reply  -- what the handler gives; none is an error

abbrev pub others : Bytes → List Bytes → List Bytes
others id [] = []
others id (j ∷ joined) = if same j id then others id joined else j ∷ others id joined

module _ {Reply : Type 0} where
  abbrev pub look_answer : Calls Reply → Bytes → Option Reply → Calls Reply
  look_answer c id none = record c { queued = id ∷ c.queued }
  look_answer c id (some v) = record c { answers = (id, v) ∷ c.answers }

  -- `sf.Do`: the first call of an id leads, the others wait for it.
  unfoldable pub enter : Calls Reply → Bytes → Calls Reply
  enter c id =
      let d = record c { queued = remove_bytes id c.queued } in
      if ltb 0 (count_bytes id c.queued)
      then (if ltb 0 (count_bytes id c.flights)
          then record d { joined = id ∷ c.joined }
          else record d { flights = id ∷ c.flights })
      else c

  abbrev pub answer_each : Bytes → Reply → List Bytes → List (Bytes × Reply)
  answer_each id v [] = []
  answer_each id v (j ∷ joined) =
      if same j id then (id, v) ∷ answer_each id v joined else answer_each id v joined

  -- The flight ends, with its leader's reply for all who joined, or with its error.
  abbrev pub land : Calls Reply → Bytes → List (Bytes × Reply) → Calls Reply
  land c id answers = record c {
    flights = remove_bytes id c.flights;
    joined = others id c.joined;
    answers = answers;
  }

  abbrev pub reply_to : Calls Reply → Bytes → Reply → List (Bytes × Reply)
  reply_to c id v = (id, v) ∷ answer_each id v c.joined ++ c.answers

  abbrev pub again_answer : Calls Reply → Bytes → Option Reply → Calls Reply
  again_answer c id none = record c { running = id ∷ c.running }
  again_answer c id (some v) = land c id (reply_to c id v)

  abbrev pub conclude : Calls Reply → Bytes → Option Reply → Calls Reply
  conclude c id none = land c id c.answers
  conclude c id (some v) =
      land (record c { history = added id v ∷ c.history; executed = id ∷ c.executed }) id
        (reply_to c id v)

  unfoldable pub finish : Calls Reply → Bytes → Option Reply → Calls Reply
  finish c id out =
      if ltb 0 (count_bytes id c.running)
      then conclude (record c { running = remove_bytes id c.running }) id out
      else c

module _ {Reply : Type 0} (lookup : List (Use Reply) → Bytes → Option Reply) where
  -- The first look of `DoOnce`.
  unfoldable pub look : Calls Reply → Bytes → Calls Reply
  look c id = look_answer (record c { history = got id ∷ c.history }) id (lookup c.history id)

  -- The leader's look inside the flight.
  unfoldable pub look_again : Calls Reply → Bytes → Calls Reply
  look_again c id =
      if ltb 0 (count_bytes id c.flights) && not (ltb 0 (count_bytes id c.running))
      then again_answer (record c { history = got id ∷ c.history }) id (lookup c.history id)
      else c

  unfoldable pub call_step : Calls Reply → CallStep Reply → Calls Reply
  call_step c (looks id) = look c id
  call_step c (enters id) = enter c id
  call_step c (looks_again id) = look_again c id
  call_step c (finishes id out) = finish c id out

  unfoldable pub call_steps : Calls Reply → List (CallStep Reply) → Calls Reply
  call_steps c [] = c
  call_steps c (s ∷ steps) = call_steps (call_step c s) steps
