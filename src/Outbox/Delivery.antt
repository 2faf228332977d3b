-- ===== src/Outbox/Delivery.antt =====
-- What a run of queueing and flushing does with the events: none is lost, and none overtakes.
use mathlib.Core.Path.{subst}
use hogs.Prelude.{
  ℕ, zero, suc, ◌≤◌, ◌<◌, Bool, true, false, ◌||◌, List, [], ◌∷◌, ◌++◌, ◌≡◌, refl, ap, arith,
  Bool-cases, inl, inr,
}
use hogs.Outbox.{
  Queued, Producer, Flushed, Reply, Verdict, verdict, take, renumbered, renumber, delete_row,
  answered, flush_batch, flush_stream,
}
use hogs.Outbox.Order.{
  IsSound, IsNumbered, IsDistinct, by_seq-IsNumbered, keep_rest, renumber-IsSound, bodies,
}

module _ {Body : Type 0} where
  bodies-renumbered : (n : ℕ) (xs : List (Queued Body)) → bodies (renumbered n xs) ≡ bodies xs
  unfolding renumbered
  bodies-renumbered n [] = refl
  bodies-renumbered n (x ∷ xs) = ap (λ (l : List Body). x.body ∷ l) (bodies-renumbered (suc n) xs)

  pub bodies-append : (xs ys : List (Queued Body)) → bodies (xs ++ ys) ≡ bodies xs ++ bodies ys
  bodies-append [] ys = refl
  bodies-append (x ∷ xs) ys = ap (λ (l : List Body). x.body ∷ l) (bodies-append xs ys)

  -- Renumbering an outbox puts it under a later epoch, whatever the clock says.
  pub renumber-epoch : (now : ℕ) (p : Producer Body) → p.epoch < (renumber now p).epoch
  unfolding renumber
  renumber-epoch now p = ground arith

  bodies-renumber :
      (now : ℕ) (p : Producer Body) → IsSound p → bodies (renumber now p).queue ≡ bodies p.queue
  unfolding renumber
  bodies-renumber now p i =
      rw (by_seq-IsNumbered i.first p.queue i.numbered) (bodies-renumbered 0 p.queue)

  -- What a flush makes of an outbox.
  pub record IsKept (p : Producer Body) (f : Flushed Body) : Type 0 where
    pub sound : IsSound f.producer
    pub order : bodies f.delivered ++ bodies f.producer.queue ≡ bodies p.queue
    pub later : p.epoch ≤ f.producer.epoch

  stopped :
      (p : Producer Body) (b : Bool)
      → IsSound p
      → IsKept p (record { producer = p; delivered = []; is_error = b })
  stopped p b i = record { sound = i; order = refl; later = omega arith }

  stale :
      (now : ℕ) (p : Producer Body)
      → IsSound p
      → IsKept p (record { producer = renumber now p; delivered = []; is_error = true })
  stale now p i = record {
    sound = renumber-IsSound now p i;
    order = bodies-renumber now p i;
    later = omega (arith, renumber-epoch now p);
  }

  module _ (epoch next_seq : ℕ) (made : Bool) where
    abbrev outbox : List (Queued Body) → Producer Body
    outbox q = record { epoch = epoch; next_seq = next_seq; queue = q; made = made }

    rest-IsSound :
        (x : Queued Body) (q : List (Queued Body)) → IsSound (outbox (x ∷ q)) → IsSound (outbox q)
    unfolding IsNumbered IsDistinct
    rest-IsSound x q i = record {
      first = suc i.first;
      numbered = i.numbered.1;
      upto_next = omega (arith, i.upto_next);
      distinct = i.distinct.1;
    }

    delivered_one :
        (x : Queued Body) (q : List (Queued Body)) (f : Flushed Body)
        → IsKept (outbox q) f
        → IsKept (outbox (x ∷ q)) (record f { delivered = x ∷ f.delivered })
    delivered_one x q f k = record {
      sound = k.sound;
      order = ap (λ (l : List Body). x.body ∷ l) k.order;
      later = k.later;
    }

    delete_first :
        (x : Queued Body) (q : List (Queued Body))
        → IsSound (outbox (x ∷ q))
        → delete_row x.id (outbox (x ∷ q)) ≡ outbox q
    unfolding delete_row IsDistinct
    delete_first x q i = ap outbox (keep_rest x q i.distinct.0)

    -- One answer, by its verdict and by what the database stores.
    flush_one :
        (now : ℕ) (v : Verdict) (is_stored : Bool) (x : Queued Body) (q : List (Queued Body))
        (f : Flushed Body)
        → IsSound (outbox (x ∷ q))
        → IsKept (outbox q) f
        → IsKept (outbox (x ∷ q)) (answered now v is_stored x (outbox (x ∷ q)) f)
    unfolding answered
    flush_one now Verdict.held true x q f i k = delivered_one x q f k
    flush_one now Verdict.held false x q f i k = stopped _ true i
    flush_one now Verdict.stale true x q f i k = stale now _ i
    flush_one now Verdict.stale false x q f i k = stopped _ true i
    flush_one now Verdict.failing b x q f i k = stopped _ true i

    flush_batch-IsKept :
        (now : ℕ) (replies : List Reply) (xs ys : List (Queued Body))
        → IsSound (outbox (xs ++ ys))
        → IsKept (outbox (xs ++ ys)) (flush_batch now replies xs (outbox (xs ++ ys)))
    unfolding flush_batch
    flush_batch-IsKept now replies [] ys i = stopped _ false i
    flush_batch-IsKept now [] (x ∷ xs) ys i = stopped _ true i
    flush_batch-IsKept now (r ∷ replies) (x ∷ xs) ys i =
        let rest = flush_batch-IsKept now replies xs ys (rest-IsSound x (xs ++ ys) i) in
        rw (delete_first x (xs ++ ys) i)
          (flush_one now (verdict r.answer x.seq) r.is_stored x (xs ++ ys) _ i rest)

  drop : ℕ → List (Queued Body) → List (Queued Body)
  drop zero xs = xs
  drop (suc n) [] = []
  drop (suc n) (x ∷ xs) = drop n xs

  take-drop : (n : ℕ) (xs : List (Queued Body)) → take n xs ++ drop n xs ≡ xs
  unfolding take drop
  take-drop zero xs = refl
  take-drop (suc n) [] = refl
  take-drop (suc n) (x ∷ xs) = ap (λ (l : List (Queued Body)). x ∷ l) (take-drop n xs)

  flush_batch-taken :
      (now n : ℕ) (replies : List Reply) (p : Producer Body)
      → IsSound p
      → IsKept p (flush_batch now replies (take n p.queue) p)
  flush_batch-taken now n replies p i =
      subst
        (λ (q : List (Queued Body)).
          IsSound (outbox p.epoch p.next_seq p.made q)
          → IsKept (outbox p.epoch p.next_seq p.made q)
              (flush_batch now replies (take n p.queue) (outbox p.epoch p.next_seq p.made q)))
        (take-drop n p.queue)
        (flush_batch-IsKept p.epoch p.next_seq p.made now replies (take n p.queue) (drop n p.queue))
        i

  made_one : (p : Producer Body) → IsSound p → IsSound (record p { made = true })
  made_one p i = record {
    first = i.first;
    numbered = i.numbered;
    upto_next = i.upto_next;
    distinct = i.distinct;
  }

  pub flush_stream-IsKept :
      (is_created : Bool) (now : ℕ) (replies : List Reply) (p : Producer Body)
      → IsSound p
      → IsKept p (flush_stream is_created now replies p)
  unfolding flush_stream
  flush_stream-IsKept is_created now replies p i = elim (Bool-cases (p.made || is_created)) [
    | inl e ↦
        let m = made_one p i in
        rw (e, by_seq-IsNumbered i.first p.queue i.numbered)
          (let k = flush_batch-taken now 200 replies (record p { made = true }) m in
            record { sound = k.sound; order = k.order; later = k.later })
    | inr e ↦ rw e (stopped p true i)
  ]
