-- ===== src/Outbox/Runs.antt =====
-- Every run of a stream's outbox: events are queued and the outbox is flushed, in any order.
use mathlib.Core.List.{append_assoc, map-append}
use hogs.Prelude.{ℕ, Bool, false, List, [], ◌∷◌, ◌++◌, ◌≡◌, refl, sym, ap, ◌∙◌}
use hogs.Outbox.{Producer, Flushed, Reply, enqueue, flush_stream}
use hogs.Outbox.Order.{IsSound, IsNumbered, IsDistinct, has_id, enqueue-IsSound, bodies}
use hogs.Outbox.Accepted.{
  Delivered, AllHeld, AllHeld-append, acknowledged, sent, flush_stream-IsAccepted,
}
use hogs.Outbox.Delivery.{flush_stream-IsKept, bodies-append}

module _ (Body : Type 0) where
  -- The outbox, the events delivered with their answers, and the bodies queued, both in order.
  pub record World : Type 0 where
    pub producer : Producer Body
    pub delivered : List (Delivered Body)
    pub emitted : List Body

module _ {Body : Type 0} where
  abbrev pub flushed : World Body → List Reply → Flushed Body → World Body
  flushed w replies f = record w {
    producer = f.producer;
    delivered = w.delivered ++ acknowledged replies f.delivered;
  }

  abbrev pub queued : World Body → ℕ → Body → World Body
  queued w id body = record w {
    producer = enqueue id body w.producer;
    emitted = w.emitted ++ body ∷ [];
  }

  pub data Step : World Body → World Body → Type 0 where
    emit :
        {w : World Body} (id : ℕ) (body : Body)
        → has_id id w.producer.queue ≡ false
        → Step w (queued w id body)
    flush :
        {w : World Body} (is_created : Bool) (now : ℕ) (replies : List Reply)
        → Step w (flushed w replies (flush_stream is_created now replies w.producer))

  abbrev pub fresh : ℕ → World Body
  fresh epoch = record {
    producer = record { epoch = epoch; next_seq = 0; queue = []; made = false };
    delivered = [];
    emitted = [];
  }

  pub data Reach (epoch : ℕ) : World Body → Type 0 where
    begin : Reach epoch (fresh epoch)
    more : {v w : World Body} → Reach epoch v → Step v w → Reach epoch w

  pub record IsComplete (w : World Body) : Type 0 where
    pub sound : IsSound w.producer
    pub order : sent w.delivered ++ bodies w.producer.queue ≡ w.emitted
    pub held : AllHeld w.delivered

  bodies-enqueue :
      (id : ℕ) (body : Body) (p : Producer Body)
      → bodies (enqueue id body p).queue ≡ bodies p.queue ++ body ∷ []
  unfolding enqueue
  bodies-enqueue id body p = bodies-append p.queue _

  step-IsComplete : {v w : World Body} → Step v w → IsComplete v → IsComplete w
  step-IsComplete (Step.emit {w} id body h) i = record {
    sound = enqueue-IsSound id body w.producer h i.sound;
    order =
        ap (λ (l : List Body). sent w.delivered ++ l) (bodies-enqueue id body w.producer)
        ∙ sym (append_assoc (sent w.delivered) (bodies w.producer.queue) (body ∷ []))
        ∙ ap (λ (l : List Body). l ++ body ∷ []) i.order;
    held = i.held;
  }
  step-IsComplete (Step.flush {w} is_created now replies) i =
      let k = flush_stream-IsKept is_created now replies w.producer i.sound in
      let a = flush_stream-IsAccepted is_created now replies w.producer in
      let f = flush_stream is_created now replies w.producer in
      let told = acknowledged replies f.delivered in
      record {
        sound = k.sound;
        order =
            ap (λ (l : List Body). l ++ bodies f.producer.queue) (map-append _ w.delivered told)
            ∙ append_assoc (sent w.delivered) (sent told) (bodies f.producer.queue)
            ∙ ap (λ (l : List Body). sent w.delivered ++ (l ++ bodies f.producer.queue)) a.whole
            ∙ ap (λ (l : List Body). sent w.delivered ++ l) k.order
            ∙ i.order;
        held = AllHeld-append w.delivered told i.held a.held;
      }

  -- Over any events queued and any flushes of a stream, whatever the server answers and whichever
  -- writes fail, the events delivered, in their order, with those that wait in the outbox after them
  -- are the events queued, in their order; each event delivered had an answer of its own, by which
  -- the server appended it or expects a sequence above that of the event; and the events that wait
  -- have the sequences up to the next one without gaps.
  pub Reach-IsComplete : (epoch : ℕ) {w : World Body} → Reach epoch w → IsComplete w
  unfolding IsNumbered IsDistinct
  Reach-IsComplete epoch Reach.begin = record {
    sound = record { first = 0; numbered = tt; upto_next = refl; distinct = tt };
    order = refl;
    held = tt;
  }
  Reach-IsComplete epoch (Reach.more h k) = step-IsComplete k (Reach-IsComplete epoch h)
