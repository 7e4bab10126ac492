-- ===== src/Tests/Queueing.antt =====
-- The multi-level queue at concrete states: enqueue, dequeue, demotion and boost.
use cpu_scheduling_algos.Prelude.{
  ◌≡◌, refl, ◌==◌, if◌then◌else◌, some, [], ◌∷◌, ◌++◌, any, erase_first, arith,
}
use cpu_scheduling_algos.Queues.{queue, enqueue, dequeue}
use cpu_scheduling_algos.Queues.Refine.{same_pid, queue-enqueue, queue-dequeue}
use cpu_scheduling_algos.Trap.{demote, boost_level}
use cpu_scheduling_algos.Trap.Boost.{entries, at_even, at_odd}
use cpu_scheduling_algos.Trap.Slices.{next_level, queue-demote, boost_level_halves}
use cpu_scheduling_algos.Tests.World.{queued}

queue-enqueue_example : queue (enqueue 1 2 queued) 2 ≡ (
    if 2 == 2
    then if any (same_pid queued 1) (queue queued 2)
      then queue queued 2
      else queue queued 2 ++ some 1 ∷ []
    else queue queued 2)
queue-enqueue_example = queue-enqueue 1 2 2 queued

queue-dequeue_example :
    queue (dequeue 0 1 queued) 1
    ≡ (if 1 == 1 then erase_first (same_pid queued 0) (queue queued 1) else queue queued 1)
queue-dequeue_example = queue-dequeue 0 1 1 queued

queue-demote_example :
    let held = any (same_pid queued 0) (queue (dequeue 0 1 queued) (next_level 1)) in
    (queue (demote 0 queued) 2 ≡ (
      if next_level 1 == 2
      then if held
        then queue (dequeue 0 1 queued) 2
        else queue (dequeue 0 1 queued) 2 ++ some 0 ∷ []
      else if 1 == 2
      then erase_first (same_pid queued 0) (queue queued 1)
      else queue queued 2))
    × (((demote 0 queued).procs 0).queue_number ≡ (if held then 1 else next_level 1))
    × (((demote 0 queued).procs 0).queueticks ≡ (if held then (queued.procs 0).queueticks else 0))
queue-demote_example = queue-demote 0 2 queued

boost_level_halves_example :
    (queue (boost_level 2 1 0 queued) 1 ≡ entries (at_odd (0 ∷ 1 ∷ [])))
    × (queue (boost_level 2 1 0 queued) 0 ≡ entries ([] ++ at_even (0 ∷ 1 ∷ [])))
boost_level_halves_example =
    boost_level_halves queued 1 (0 ∷ 1 ∷ []) [] (omega arith) refl refl (refl, (refl, tt))
      (((λ e. omega arith), tt), (tt, tt)) (tt, (tt, tt))

-- The processes 1 and 2 wait in queue 1; the boost takes only the first of them to queue 0.
boosted : queue (boost_level 2 1 0 queued) 1 ≡ some 1 ∷ []
unfolding boost_level
boosted = boost_level_halves_example.0
