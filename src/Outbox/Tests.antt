-- ===== src/Outbox/Tests.antt =====
-- A run of the outbox: two events, a flush whose second answer is lost, and a conflict after it.
use hogs.Prelude.{ℕ, true, none, some, List, [], ◌∷◌, ◌≡◌, refl}
use hogs.Outbox.{Answer, Reply, flush_stream, enqueue}
use hogs.Outbox.Accepted.{acknowledged, sent}
use hogs.Outbox.Runs.{World, Step, Reach, fresh, queued, flushed, IsComplete, Reach-IsComplete}

abbrev lost_answer : List Reply
lost_answer = record { answer = Answer.appended; is_stored = true } ∷ []

abbrev held_before : List Reply
held_before = record { answer = Answer.conflict (some 2); is_stored = true } ∷ []

abbrev refused_answer : List Reply
refused_answer = record { answer = Answer.refused; is_stored = true } ∷ []

abbrev gap : List Reply
gap = record { answer = Answer.conflict none; is_stored = true } ∷ []

abbrev two : World ℕ
two = queued (queued (fresh 7) 1 10) 2 20

abbrev flush_of : List Reply → World ℕ → World ℕ
flush_of replies w = flushed w replies (flush_stream true 5 replies w.producer)

two-Reach : Reach 7 two
unfolding enqueue
two-Reach = Reach.more (Reach.more Reach.begin (Step.emit 1 10 refl)) (Step.emit 2 20 refl)

retried : sent (flush_of held_before (flush_of lost_answer two)).delivered ≡ 10 ∷ 20 ∷ []
unfolding flush_stream enqueue acknowledged
retried = refl

-- An error of the server delivers nothing.
kept_waiting : (flush_of refused_answer two).delivered ≡ []
unfolding flush_stream enqueue acknowledged
kept_waiting = refl

new_epoch : (flush_of gap two).producer.epoch ≡ 8
unfolding flush_stream enqueue
new_epoch = refl

delivered-Reach : Reach 7 (flush_of gap (flush_of lost_answer two))
delivered-Reach =
    Reach.more (Reach.more two-Reach (Step.flush true 5 lost_answer)) (Step.flush true 5 gap)

Reach-IsComplete_example : IsComplete (flush_of gap (flush_of lost_answer two))
Reach-IsComplete_example = Reach-IsComplete 7 delivered-Reach
