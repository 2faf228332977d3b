-- ===== src/Outbox.antt =====
-- events/events.go: the outbox of one event stream, its producer's epoch and next sequence, and its
-- delivery. The rows of the stream in `event_outbox` are a list; every query of them is ordered by
-- their sequence. The JSON body of an event is a parameter. The stream's server is not modelled:
-- its answers, and whether the database stores what follows on one, are given.
pub mod Order
pub mod Delivery
pub mod Accepted
pub mod Runs
mod Tests
use hogs.Prelude.{
  ℕ, zero, suc, ◌+◌, Bool, true, false, not, ◌||◌, Option, none, some, List, [], ◌∷◌, ◌++◌, map,
  ltb, leb, eqb, keep, length, if◌then◌else◌,
}

module _ (Body : Type 0) where
  pub record Queued : Type 0 where
    pub id : ℕ
    pub seq : ℕ
    pub body : Body

  pub record Producer : Type 0 where
    pub epoch : ℕ
    pub next_seq : ℕ
    pub queue : List Queued
    pub made : Bool

  -- What a flush leaves: the outbox, the rows that it delivered, and whether it ended in an error.
  pub record Flushed : Type 0 where
    pub producer : Producer
    pub delivered : List Queued
    pub is_error : Bool

-- What a request comes back with: HTTP 200, 409 with the expected sequence that its header gives,
-- another status, or no response.
pub data Answer : Type 0 where
  appended : Answer
  conflict : Option ℕ → Answer
  refused unreachable : Answer

pub record Reply : Type 0 where
  pub answer : Answer
  pub is_stored : Bool

-- `expectedAfter`
unfoldable pub expected_after : Option ℕ → ℕ → Bool
expected_after none seq = false
expected_after (some expected) seq = ltb seq expected

pub data Verdict : Type 0 where
  held stale failing : Verdict

-- The cases of `flushStream` on a response.
unfoldable pub verdict : Answer → ℕ → Verdict
unfolding expected_after
verdict Answer.appended seq = Verdict.held
verdict (Answer.conflict expected) seq =
    if expected_after expected seq then Verdict.held else Verdict.stale
verdict Answer.refused seq = Verdict.failing
verdict Answer.unreachable seq = Verdict.failing

module _ {Body : Type 0} where
  -- ORDER BY seq
  unfoldable pub insert_by_seq : Queued Body → List (Queued Body) → List (Queued Body)
  insert_by_seq x [] = x ∷ []
  insert_by_seq x (y ∷ ys) =
      let rest = insert_by_seq x ys in if leb x.seq y.seq then x ∷ y ∷ ys else y ∷ rest

  unfoldable pub by_seq : List (Queued Body) → List (Queued Body)
  unfolding insert_by_seq
  by_seq [] = []
  by_seq (x ∷ xs) = insert_by_seq x (by_seq xs)

  -- LIMIT
  unfoldable pub take : ℕ → List (Queued Body) → List (Queued Body)
  take zero xs = []
  take (suc n) [] = []
  take (suc n) (x ∷ xs) = x ∷ take n xs

  -- `enqueue`, with the row's fresh id.
  unfoldable pub enqueue : ℕ → Body → Producer Body → Producer Body
  enqueue id body p =
      let row : Queued Body = record { id = id; seq = p.next_seq; body = body } in
      record p { queue = p.queue ++ row ∷ []; next_seq = p.next_seq + 1 }

  unfoldable pub renumbered : ℕ → List (Queued Body) → List (Queued Body)
  renumbered index [] = []
  renumbered index (x ∷ xs) = record x { seq = index } ∷ renumbered (suc index) xs

  -- `renumber`
  unfoldable pub renumber : ℕ → Producer Body → Producer Body
  unfolding renumbered by_seq
  renumber now p = record p {
    queue = renumbered 0 (by_seq p.queue);
    epoch = if leb now p.epoch then p.epoch + 1 else now;
    next_seq = length p.queue;
  }

  unfoldable pub delete_row : ℕ → Producer Body → Producer Body
  delete_row id p = record p { queue = keep (λ x. not (eqb x.id id)) p.queue }

  abbrev stop : Producer Body → Flushed Body
  stop p = record { producer = p; delivered = []; is_error = true }

  abbrev deliver : Queued Body → Flushed Body → Flushed Body
  deliver item f = record f { delivered = item ∷ f.delivered }

  -- What one answer leaves, and what the rest of the batch does once the row is deleted.
  unfoldable pub answered :
      ℕ → Verdict → Bool → Queued Body → Producer Body → Flushed Body → Flushed Body
  unfolding renumber
  answered now Verdict.held is_stored item p rest = if is_stored then deliver item rest else stop p
  answered now Verdict.stale is_stored item p rest = stop (if is_stored then renumber now p else p)
  answered now Verdict.failing is_stored item p rest = stop p

  -- The loop of `flushStream` over the batch. Without an answer left the request fails.
  unfoldable pub flush_batch : ℕ → List Reply → List (Queued Body) → Producer Body → Flushed Body
  unfolding verdict delete_row answered
  flush_batch now replies [] p = record { producer = p; delivered = []; is_error = false }
  flush_batch now [] (item ∷ batch) p = stop p
  flush_batch now (r ∷ replies) (item ∷ batch) p =
      let rest = flush_batch now replies batch (delete_row item.id p) in
      answered now (verdict r.answer item.seq) r.is_stored item p rest

  -- `flushStream`; `is_created` is whether `createStream` succeeds, where it is called.
  unfoldable pub flush_stream : Bool → ℕ → List Reply → Producer Body → Flushed Body
  unfolding flush_batch by_seq take
  flush_stream is_created now replies p =
      let ready = record p { made = true } in
      if p.made || is_created
      then flush_batch now replies (take 200 (by_seq p.queue)) ready
      else stop p
