-- ===== src/Outbox/Accepted.antt =====
-- What the server of a stream has answered for each event that a flush delivers.
use hogs.Prelude.{
  ℕ, ◌<◌, ◌||◌, Bool, true, none, some, List, [], ◌∷◌, ◌++◌, map, All, ◌≡◌, refl, ap, arith,
  Bool-cases, inl, inr,
}
use hogs.Outbox.{
  Queued, Producer, Flushed, Answer, Reply, Verdict, verdict, answered, delete_row, flush_batch,
  flush_stream, by_seq, take,
}
use hogs.Outbox.Order.{bodies}

-- The server has the event: it appended it, or it expects a later sequence.
abbrev pub HasIt : Answer → ℕ → Type 0
HasIt Answer.appended seq = Unit {0}
HasIt (Answer.conflict none) seq = ⊥
HasIt (Answer.conflict (some expected)) seq = seq < expected
HasIt Answer.refused seq = ⊥
HasIt Answer.unreachable seq = ⊥

verdict-HasIt : (a : Answer) (seq : ℕ) → verdict a seq ≡ Verdict.held → HasIt a seq
unfolding verdict
verdict-HasIt Answer.appended seq h = tt
verdict-HasIt (Answer.conflict none) seq h = cc
verdict-HasIt (Answer.conflict (some expected)) seq h = ground (arith, h)
verdict-HasIt Answer.refused seq h = cc
verdict-HasIt Answer.unreachable seq h = cc

module _ (Body : Type 0) where
  -- An event that left the outbox, with its sequence and the answer to the request that carried it.
  pub record Delivered : Type 0 where
    pub body : Body
    pub seq : ℕ
    pub answer : Answer

module _ {Body : Type 0} where
  -- The events of a flush, each with its own answer: the requests are in the order of the events.
  unfoldable pub acknowledged : List Reply → List (Queued Body) → List (Delivered Body)
  acknowledged replies [] = []
  acknowledged [] (x ∷ xs) = []
  acknowledged (r ∷ replies) (x ∷ xs) =
      record { body = x.body; seq = x.seq; answer = r.answer } ∷ acknowledged replies xs

  abbrev pub sent : List (Delivered Body) → List Body
  sent ds = map (λ d. d.body) ds

  abbrev pub AllHeld : List (Delivered Body) → Type 0
  AllHeld ds = All (λ d. HasIt d.answer d.seq) ds

  pub AllHeld-append : (a b : List (Delivered Body)) → AllHeld a → AllHeld b → AllHeld (a ++ b)
  AllHeld-append [] b h k = k
  AllHeld-append (d ∷ a) b h k = (h.0, AllHeld-append a b h.1 k)

  -- Every event delivered has an answer of its own, by which the server has it.
  pub record IsAccepted (replies : List Reply) (f : Flushed Body) : Type 0 where
    pub held : AllHeld (acknowledged replies f.delivered)
    pub whole : sent (acknowledged replies f.delivered) ≡ bodies f.delivered

  one-IsAccepted :
      (now : ℕ) (v : Verdict) (r : Reply) (replies : List Reply) (x : Queued Body)
      (p : Producer Body) (rest : Flushed Body)
      → verdict r.answer x.seq ≡ v
      → IsAccepted replies rest
      → IsAccepted (r ∷ replies) (answered now v r.is_stored x p rest)
  unfolding answered acknowledged
  one-IsAccepted now Verdict.held r replies x p rest e i = elim (Bool-cases r.is_stored) [
    | inl s ↦ rw s (record {
      held = (verdict-HasIt r.answer x.seq e, i.held);
      whole = ap (λ (l : List Body). x.body ∷ l) i.whole;
    })
    | inr s ↦ rw s (record { held = tt; whole = refl })
  ]
  one-IsAccepted now Verdict.stale r replies x p rest e i = record { held = tt; whole = refl }
  one-IsAccepted now Verdict.failing r replies x p rest e i = record { held = tt; whole = refl }

  flush_batch-IsAccepted :
      (now : ℕ) (replies : List Reply) (batch : List (Queued Body)) (p : Producer Body)
      → IsAccepted replies (flush_batch now replies batch p)
  unfolding flush_batch acknowledged
  flush_batch-IsAccepted now replies [] p = record { held = tt; whole = refl }
  flush_batch-IsAccepted now [] (x ∷ batch) p = record { held = tt; whole = refl }
  flush_batch-IsAccepted now (r ∷ replies) (x ∷ batch) p =
      one-IsAccepted now (verdict r.answer x.seq) r replies x p _ refl
        (flush_batch-IsAccepted now replies batch (delete_row x.id p))

  pub flush_stream-IsAccepted :
      (is_created : Bool) (now : ℕ) (replies : List Reply) (p : Producer Body)
      → IsAccepted replies (flush_stream is_created now replies p)
  unfolding flush_stream acknowledged
  flush_stream-IsAccepted is_created now replies p = elim (Bool-cases (p.made || is_created)) [
    | inl e ↦
        rw e (
          flush_batch-IsAccepted now replies (take 200 (by_seq p.queue)) (record p { made = true }))
    | inr e ↦ rw e (record { held = tt; whole = refl })
  ]
