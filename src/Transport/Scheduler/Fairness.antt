-- ===== src/Transport/Scheduler/Fairness.antt =====
-- What one epoch and a run of epochs give to each class.
use tir_base.Prelude.{
  ℕ, suc, ◌+◌, ◌-◌, ◌*◌, ◌%◌, ◌^◌, ◌<◌, ◌≡◌, refl, ap, ◌∙◌, false, List, ◌++◌, arith, ℤ, pos,
  negsuc, pos_part, neg_part, ◌+ℤ◌, ◌-ℤ◌, ◌≤ℤ◌, ◌<ℤ◌, int_laws, append_assoc, i64, i64-same,
}
use tir_base.Crdt.Delta.{PriorityClass, high, medium, low}
use tir_base.Transport.Scheduler.{
  QueuedDelta, DrrScheduler, Drained, bytes, drain_queue, drain_spare, tick, tick_normal,
  with_quantum, bytes_i64, u64_mod,
}
use tir_base.Transport.Scheduler.Drain.{
  bytes-append, IsServed, HasRoom, IsDrain, HasRoom-IsDrain, drain_queue-fifo, drain_spare-fifo,
  drain_queue-IsDrain, drain_queue-IsServed, drain_spare-IsDrain, drain_spare-IsServed,
}

abbrev pub queue_of : PriorityClass → DrrScheduler → List QueuedDelta
queue_of high s = s.high_queue
queue_of medium s = s.medium_queue
queue_of low s = s.low_queue

abbrev pub deficit_of : PriorityClass → DrrScheduler → ℤ
deficit_of high s = s.high_deficit
deficit_of medium s = s.medium_deficit
deficit_of low s = s.low_deficit

abbrev pub quantum_of : PriorityClass → DrrScheduler → ℕ
quantum_of high s = s.high_quantum
quantum_of medium s = s.medium_quantum
quantum_of low s = s.low_quantum

-- what a class has to spend in an epoch, without overflow
abbrev pub funds : PriorityClass → DrrScheduler → ℤ
funds c s = with_quantum (deficit_of c s) (quantum_of c s)

-- For `k` more epochs, in which `a` more bytes arrive, the i64 counter of a class does not overflow.
pub record Fits (c : PriorityClass) (k a : ℕ) (s : DrrScheduler) : Type 0 where
  pub quantum : quantum_of c s < 2 ^ 63
  pub queued : bytes (queue_of c s) + a < 2 ^ 63
  pub upper : deficit_of c s +ℤ pos (k * quantum_of c s) <ℤ pos (2 ^ 63)
  pub lower : negsuc (2 ^ 63 - 1) +ℤ pos (bytes (queue_of c s) + a) ≤ℤ deficit_of c s

pub funds-Fits :
    (c : PriorityClass) (k a : ℕ) (s : DrrScheduler)
    → Fits c (suc k) a s
    → (funds c s ≡ deficit_of c s +ℤ pos (quantum_of c s)) × HasRoom (queue_of c s) (funds c s)
funds-Fits c k a s f =
    let q = i64-same (pos (quantum_of c s)) (omega arith, omega (arith, f.quantum)) in
    let z = deficit_of c s +ℤ pos (quantum_of c s) in
    let one : suc k * quantum_of c s ≡ quantum_of c s + k * quantum_of c s = omega arith in
    let lo : negsuc (2 ^ 63 - 1) +ℤ pos (bytes (queue_of c s)) ≤ℤ z = omega (int_laws, f.lower) in
    let hi : z <ℤ pos (2 ^ 63) = omega (int_laws, f.upper, one) in
    let sum : i64 z ≡ z = i64-same z (omega (int_laws, lo), hi) in
    let e : funds c s ≡ z = rw q sum in
    (e, rw e (record { queued = omega (arith, f.queued); upper = hi; lower = lo }))

pub Fits-one : (c : PriorityClass) (k a : ℕ) (s : DrrScheduler) → Fits c (suc k) a s → Fits c 1 0 s
Fits-one c k a s f =
    let more : suc k * quantum_of c s ≡ quantum_of c s + k * quantum_of c s = omega arith in
    record {
      quantum = f.quantum;
      queued = omega (arith, f.queued);
      upper = omega (int_laws, more, f.upper);
      lower = omega (int_laws, f.lower);
    }

-- What an epoch did to one class: `sent` left the queue at its front, and was paid for.
pub record Served (c : PriorityClass) (s t : DrrScheduler) (sent : List QueuedDelta) : Type 0 where
  pub fifo : sent ++ queue_of c t ≡ queue_of c s
  pub paid : deficit_of c t +ℤ pos (bytes sent) ≡ deficit_of c s +ℤ pos (quantum_of c s)
  pub served : IsServed (queue_of c t) (deficit_of c t)

-- a queue drained on its deficit, and then on spare capacity
module _ (queue : List QueuedDelta) (deficit spare : ℤ) where
  abbrev first : Drained
  first = drain_queue queue deficit deficit

  abbrev second : Drained
  second = drain_spare spare first.queue first.deficit

  twice_fifo : (first.sent ++ second.sent) ++ second.queue ≡ queue
  twice_fifo =
      append_assoc first.sent second.sent second.queue
      ∙ ap (λ q. first.sent ++ q) (drain_spare-fifo spare first.queue first.deficit)
      ∙ drain_queue-fifo queue deficit deficit

  module _ (room : HasRoom queue deficit) where
    first-IsDrain : IsDrain queue deficit first
    first-IsDrain = drain_queue-IsDrain queue deficit deficit room

    first-HasRoom : HasRoom first.queue first.deficit
    first-HasRoom = HasRoom-IsDrain queue deficit first room first-IsDrain

    twice_paid : second.deficit +ℤ pos (bytes (first.sent ++ second.sent)) ≡ deficit
    twice_paid =
        let p = (drain_spare-IsDrain spare first.queue first.deficit first-HasRoom).paid in
        let q = first-IsDrain.paid in
        omega (
          int_laws,
          bytes-append first.sent second.sent,
          ap pos_part p,
          ap neg_part p,
          ap pos_part q,
          ap neg_part q,
        )

    twice-IsServed : IsServed second.queue second.deficit
    twice-IsServed =
        drain_spare-IsServed spare first.queue first.deficit first-HasRoom
          (drain_queue-IsServed queue deficit room)

-- the parts of a normal epoch that belong to the three classes
pub record Epoch (s t : DrrScheduler) (result : List QueuedDelta) : Type 0 where
  pub sent : PriorityClass → List QueuedDelta
  pub order : result ≡ sent high ++ sent medium ++ sent low
  pub each : (c : PriorityClass) → Served c s t (sent c)

module _ (capacity : ℕ) (s : DrrScheduler) where
  abbrev spare_high : ℤ
  spare_high =
      let total_sent =
        bytes (drain_queue s.high_queue (funds high s) (funds high s)).sent
        + bytes (drain_queue s.medium_queue (funds medium s) (funds medium s)).sent
        + bytes (drain_queue s.low_queue (funds low s) (funds low s)).sent in
      i64 (i64 (pos capacity) -ℤ i64 (pos (total_sent % u64_mod)))

  abbrev spare_medium : ℤ
  spare_medium = i64 (spare_high -ℤ bytes_i64 (second s.high_queue (funds high s) spare_high).sent)

  abbrev spare_low : ℤ
  spare_low =
      i64 (spare_medium -ℤ bytes_i64 (second s.medium_queue (funds medium s) spare_medium).sent)

  abbrev spare_of : PriorityClass → ℤ
  spare_of high = spare_high
  spare_of medium = spare_medium
  spare_of low = spare_low

  abbrev pub sent_of : PriorityClass → List QueuedDelta
  sent_of c =
      (first (queue_of c s) (funds c s) (spare_of c)).sent
      ++ (second (queue_of c s) (funds c s) (spare_of c)).sent

  tick_normal-left :
      (c : PriorityClass)
      → let d = second (queue_of c s) (funds c s) (spare_of c) in
        (queue_of c (tick_normal capacity s).1 ≡ d.queue)
        × (deficit_of c (tick_normal capacity s).1 ≡ d.deficit)
  unfolding tick_normal
  tick_normal-left high = (refl, refl)
  tick_normal-left medium = (refl, refl)
  tick_normal-left low = (refl, refl)

  tick_normal-fifo :
      (c : PriorityClass) → sent_of c ++ queue_of c (tick_normal capacity s).1 ≡ queue_of c s
  tick_normal-fifo c =
      rw (tick_normal-left c).0 (twice_fifo (queue_of c s) (funds c s) (spare_of c))

  tick_normal-Served :
      (c : PriorityClass) → Fits c 1 0 s → Served c s (tick_normal capacity s).1 (sent_of c)
  tick_normal-Served c f =
      let g = funds-Fits c 0 0 s f in
      let l = tick_normal-left c in
      record {
        fifo = tick_normal-fifo c;
        paid = rw l.1 (twice_paid (queue_of c s) (funds c s) (spare_of c) g.1) ∙ g.0;
        served = rw (l.0, l.1) (twice-IsServed (queue_of c s) (funds c s) (spare_of c) g.1);
      }

  tick-eq-tick_normal : s.saturate_mode ≡ false → tick capacity s ≡ tick_normal capacity s
  unfolding tick
  tick-eq-tick_normal off = ground arith

  tick_normal-order : (tick_normal capacity s).0 ≡ sent_of high ++ sent_of medium ++ sent_of low
  unfolding tick_normal
  tick_normal-order = refl

-- whatever the counters are, an epoch sends prefixes of the queues
pub tick-fifo :
    (capacity : ℕ) (s : DrrScheduler)
    → s.saturate_mode ≡ false
    → ((tick capacity s).0
        ≡ sent_of capacity s high ++ sent_of capacity s medium ++ sent_of capacity s low)
      × ((c : PriorityClass)
          → sent_of capacity s c ++ queue_of c (tick capacity s).1 ≡ queue_of c s)
tick-fifo capacity s off =
    rw (tick-eq-tick_normal capacity s off)
      (tick_normal-order capacity s, tick_normal-fifo capacity s)

-- and a class whose counter does not overflow is served
pub tick-Served :
    (capacity : ℕ) (s : DrrScheduler) (c : PriorityClass)
    → s.saturate_mode ≡ false
    → Fits c 1 0 s
    → Served c s (tick capacity s).1 (sent_of capacity s c)
tick-Served capacity s c off f =
    rw (tick-eq-tick_normal capacity s off) (tick_normal-Served capacity s c f)

-- One normal epoch in which no i64 counter of a class overflows sends from each class a prefix of
-- its queue, HIGH before MEDIUM before LOW, loses and invents nothing, charges each class exactly
-- the bytes sent against its deficit and its quantum, and leaves at the front of a backlogged class
-- only a delta that exceeds its deficit. No counter overflows if for each class its quantum, its
-- deficit with the quantum, and its queued bytes, also when charged to the deficit, stay within an
-- i64.
pub tick-Epoch :
    (capacity : ℕ) (s : DrrScheduler)
    → s.saturate_mode ≡ false
    → ((c : PriorityClass) → Fits c 1 0 s)
    → Epoch s (tick capacity s).1 (tick capacity s).0
tick-Epoch capacity s off fits = record {
  sent = sent_of capacity s;
  order = (tick-fifo capacity s off).0;
  each = λ c. tick-Served capacity s c off (fits c);
}
