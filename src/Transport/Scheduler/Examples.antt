-- ===== src/Transport/Scheduler/Examples.antt =====
-- Tests and instances for the scheduler.
use tir_base.Prelude.{ℕ, ◌≡◌, refl, true, [], ◌∷◌, ◌+◌, ◌*◌, ◌-ℤ◌, i64, arith, pos, ◌+ℤ◌, ◌<ℤ◌}
use tir_base.Crdt.Delta.{Delta, PriorityClass, high, medium, low}
use tir_base.Transport.Scheduler.{
  QueuedDelta, DrrScheduler, new, tick, enqueue, set_saturate_mode, quantum, drain_loop,
  enqueue_class, tick_normal, drain_queue, drain_spare,
}
use tir_base.Transport.Scheduler.Fairness.{
  queue_of, deficit_of, quantum_of, Fits, Epoch, tick-Epoch,
}
use tir_base.Transport.Scheduler.Floor.{
  arrive, epoch, run, transmitted, class_bytes, IsOfClass, IsSorted, floor,
}
use tir_base.Transport.Scheduler.Burst.{
  SaturatedEpoch, tick-SaturatedEpoch, burst, idle, idle_burst,
}

abbrev delta_of : PriorityClass → Delta
delta_of c = record {
  id = 1;
  author_did = "did:key:z1";
  signature = [];
  schema_hash = 0;
  automerge_bytes = [];
  priority = c;
  causal_parents = [];
  tags = [];
  lamport = 1;
  created_at = pos 0;
}

abbrev queued : PriorityClass → ℕ → QueuedDelta
queued c n = record { delta = delta_of c; serialized_len = n; enqueued_at = pos 0 }

abbrev fresh : DrrScheduler
fresh = new 100

abbrev busy : DrrScheduler
busy = enqueue (queued low 8) (enqueue (queued low 30) fresh)

busy-Fits : (c : PriorityClass) → Fits c 1 0 busy
unfolding new enqueue enqueue_class quantum ◌+ℤ◌
busy-Fits c = record {
  quantum = ground arith;
  queued = ground arith;
  upper = ground arith;
  lower = ground arith;
}

tick-Epoch_example : Epoch busy (tick 100 busy).1 (tick 100 busy).0
unfolding new enqueue enqueue_class
tick-Epoch_example = tick-Epoch 100 busy refl busy-Fits

fresh-IsOfClass : (c : PriorityClass) → IsOfClass c (queue_of c fresh)
unfolding new
fresh-IsOfClass high = tt
fresh-IsOfClass medium = tt
fresh-IsOfClass low = tt

fresh-IsSorted : IsSorted fresh
unfolding new
fresh-IsSorted = record { class_of = fresh-IsOfClass; normal = refl }

-- a delta of 300 bytes waits in LOW while the link carries nothing
floor_example :
    deficit_of low fresh +ℤ pos ((1 + 1) * quantum_of low fresh)
    <ℤ pos (
        transmitted low (arrive (queued low 300) ∷ epoch 0 ∷ []) fresh
        + class_bytes low (tick 0 (run (arrive (queued low 300) ∷ epoch 0 ∷ []) fresh)).0
        + 300)
unfolding run new enqueue enqueue_class tick tick_normal drain_queue drain_spare drain_loop quantum
    i64 ◌+ℤ◌ ◌-ℤ◌
floor_example =
    floor low (arrive (queued low 300) ∷ epoch 0 ∷ []) fresh 0 (queued low 300) [] fresh-IsSorted
      (record {
        quantum = omega arith;
        queued = omega arith;
        upper = omega arith;
        lower = omega arith;
      })
      refl

abbrev saturated : DrrScheduler
saturated = set_saturate_mode true busy

tick-SaturatedEpoch_example :
    SaturatedEpoch 100 saturated (tick 100 saturated).1 (tick 100 saturated).0
unfolding set_saturate_mode new enqueue enqueue_class
tick-SaturatedEpoch_example = tick-SaturatedEpoch 100 saturated refl (omega arith)

burst_example : queue_of high (tick 0 (enqueue (queued high 60) fresh)).1 ≡ []
unfolding new enqueue enqueue_class quantum ◌+ℤ◌
burst_example =
    burst high 0 (enqueue (queued high 60) fresh) refl
      (record {
        quantum = omega arith;
        queued = omega arith;
        upper = omega arith;
        lower = omega arith;
      })
      (omega arith)

-- after nine idle epochs a LOW delta of the whole link capacity goes out on a link that
-- carries 100 bytes, beside what the other classes send
idle_burst_example : queue_of low (tick 100 (enqueue (queued low 100) (idle 9 100 fresh))).1 ≡ []
unfolding new quantum
idle_burst_example = idle_burst 9 100 (queued low 100) (omega arith) (omega arith)

-- Near the end of an i64 the counter wraps: the deficit becomes negative, and on a link that carries
-- nothing the class with the largest deficit sends nothing.
abbrev rich : DrrScheduler
rich = record (enqueue (queued high 60) fresh) { high_deficit = pos 9_223_372_036_854_775_800 }

overflowed : (tick 0 rich).0 ≡ []
unfolding new enqueue enqueue_class tick tick_normal drain_queue drain_spare drain_loop quantum i64
    ◌+ℤ◌ ◌-ℤ◌
overflowed = refl
