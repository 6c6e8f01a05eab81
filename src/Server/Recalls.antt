-- ===== src/Server/Recalls.antt =====
-- `RecallRegistry` of pkg/server/delegation/recall.go: the recall streams of the sessions, and the
-- recalls that wait for an ack. A stream is known by a number, which stands for its slot's pointer;
-- the ack channels that are closed are the list `acked`. Each critical section is one step.
pub mod Acks
pub mod Answers
use g_mountie.Prelude.{
  ℕ, ◌+◌, ◌%◌, ◌^◌, Bool, true, false, ◌&&◌, not, Option, none, some, List, [], ◌∷◌, ◌==◌, any,
  keep_if, get, put, del, if◌then◌else◌, Bytes, Bytes-discrete,
}
use g_mountie.Delegation.Arbiter.{RecallError, no_stream, other_failure}

pub record Registry : Type 0 where
  pub next_id : ℕ
  pub streams : List (Bytes × ℕ)
  pub inflight : List ℕ
  pub acked : List ℕ

abbrev pub new_registry : Registry
new_registry = record { next_id = 0; streams = []; inflight = []; acked = [] }

abbrev pub has_id : ℕ → List ℕ → Bool
has_id id ids = any (λ i. i == id) ids

abbrev pub drop_id : ℕ → List ℕ → List ℕ
drop_id id ids = keep_if (λ i. not (i == id)) ids

unfoldable pub register : Registry → Bytes → ℕ → Registry
unfolding put
register r session slot = record r { streams = put Bytes-discrete r.streams session slot }

abbrev pub is_slot : ℕ → Option ℕ → Bool
is_slot slot none = false
is_slot slot (some s) = s == slot

-- The closure that `Register` returns: a later stream of the session stays.
unfoldable pub release_stream : Registry → Bytes → ℕ → Registry
unfolding get del
release_stream r session slot =
    if is_slot slot (get Bytes-discrete r.streams session)
    then record r { streams = del Bytes-discrete r.streams session }
    else r

-- `Ack`; the session is not read.
unfoldable pub ack : Registry → Bytes → ℕ → Registry
ack r session id =
    let closed = if has_id id r.inflight then id ∷ r.acked else r.acked in
    record r { inflight = drop_id id r.inflight; acked = closed }

abbrev pub next_recall : Registry → ℕ
next_recall r = (r.next_id + 1) % 2 ^ 64

abbrev pub begin_on : Registry → Option ℕ → Registry × Bool
begin_on r none = (r, false)
begin_on r (some slot) = (record r { inflight = r.next_id ∷ r.inflight }, true)

-- `Recall` up to the send: whether there is a stream. The recall's number is then `next_id`.
unfoldable pub begin_recall : Registry → Bytes → Registry × Bool
unfolding get
begin_recall r owner =
    begin_on (record r { next_id = next_recall r }) (get Bytes-discrete r.streams owner)

unfoldable pub give_up : Registry → ℕ → Registry
give_up r id = record r { inflight = drop_id id r.inflight }

-- What other goroutines call.
pub data Call : Type 0 where
  registers : Bytes → ℕ → Call
  releases : Bytes → ℕ → Call
  acks : Bytes → ℕ → Call
  begins : Bytes → Call
  gives_up : ℕ → Call

unfoldable pub step : Registry → Call → Registry
unfolding register release_stream ack begin_recall give_up
step r (registers session slot) = register r session slot
step r (releases session slot) = release_stream r session slot
step r (acks session id) = ack r session id
step r (begins owner) = (begin_recall r owner).0
step r (gives_up id) = give_up r id

unfoldable pub steps : Registry → List Call → Registry
steps r [] = r
steps r (c ∷ cs) = steps (step r c) cs

-- `Recall`, with what the others call while it waits: whether the send succeeds, and whether the
-- timer is taken where the ack is there too.
unfoldable pub recall : Bool → Bool → List Call → Registry → Bytes → Registry × Option RecallError
recall sent timer calls r owner =
    let (b, found) = begin_recall r owner in
    let id = b.next_id in
    let w = steps b calls in
    if not found
    then (b, some no_stream)
    else (if not sent
        then (give_up b id, some other_failure)
        else (if has_id id w.acked && not timer
            then (w, none)
            else (give_up w id, some other_failure)))
