-- ===== src/Transport/Scheduler/Burst.antt =====
-- The amount that one epoch of scheduler.rs may transmit.
use tir_base.Prelude.{
  ℕ, zero, suc, ◌+◌, ◌*◌, ◌^◌, ◌<◌, ◌≤◌, ◌≡◌, refl, ap, ◌∙◌, inl, inr, if◌then◌else◌, i64, i64-le,
  true, false, List, [], ◌∷◌, ◌++◌, arith, pos, pos_part, neg_part, ◌+ℤ◌, ◌≤ℤ◌, int_laws,
}
use mathlib.Core.Path.{subst}
use native.Mathlib.Nat.{zero-add}
use tir_base.Crdt.Delta.{PriorityClass}
use tir_base.Transport.Scheduler.{
  QueuedDelta, DrrScheduler, bytes, new, tick, tick_saturate, enqueue,
}
use tir_base.Transport.Scheduler.Drain.{bytes-append, drain_queue-fifo, drain_queue_within}
use tir_base.Transport.Scheduler.Fairness.{
  queue_of, deficit_of, quantum_of, Served, Fits, Fits-one, sent_of, tick-Served,
}
use tir_base.Transport.Scheduler.Floor.{
  same_class, Fits-tick, Fits-enqueue, normal-tick, quantum-tick, deficit-enqueue, quantum-enqueue,
  normal-enqueue,
}

-- What an epoch in Saturate_Mode does, beside what it sends from the HIGH queue.
pub record SaturatedEpoch (capacity : ℕ) (s t : DrrScheduler) (result : List QueuedDelta)
    : Type 0 where
  pub fifo : result ++ t.high_queue ≡ s.high_queue
  pub within : bytes result ≤ capacity
  pub medium_kept : t.medium_queue ≡ s.medium_queue
  pub low_kept : t.low_queue ≡ s.low_queue

-- In Saturate_Mode an epoch transmits a prefix of the HIGH queue, whose bytes are below 2 ^ 63,
-- within the link's capacity, and drops, sends and adds nothing in the MEDIUM and LOW queues.
pub tick-SaturatedEpoch :
    (capacity : ℕ) (s : DrrScheduler)
    → s.saturate_mode ≡ true
    → bytes s.high_queue < 2 ^ 63
    → SaturatedEpoch capacity s (tick capacity s).1 (tick capacity s).0
unfolding tick tick_saturate
tick-SaturatedEpoch capacity s on fits =
    let budget = i64 (pos capacity) in
    let fifo = drain_queue-fifo s.high_queue budget s.high_deficit in
    rw on (record {
      fifo = fifo;
      within = elim (drain_queue_within s.high_queue budget s.high_deficit fits) [
        | inl e ↦ omega (arith, ap bytes e)
        | inr e ↦ omega (arith, e, i64-le capacity)
      ];
      medium_kept = refl;
      low_kept = refl;
    })

append-eq-nil {ℓ} : {A : Type ℓ} (xs ys : List A) → xs ++ ys ≡ [] → (xs ≡ []) × (ys ≡ [])
append-eq-nil [] ys h = (refl, h)
append-eq-nil (x ∷ xs) ys h = cc

nil_of_Served :
    (c : PriorityClass) (s t : DrrScheduler) (sent queue : List QueuedDelta)
    → Served c s t sent
    → queue_of c t ≡ queue
    → pos (bytes (queue_of c s)) ≤ℤ deficit_of c s +ℤ pos (quantum_of c s)
    → queue ≡ []
nil_of_Served c s t sent [] h e fits = refl
nil_of_Served c s t sent (front ∷ rest) h e fits = absurd (
    omega (
      int_laws,
      h.served front rest e,
      bytes-append sent (queue_of c t),
      ap bytes h.fifo,
      ap bytes e,
      ap pos_part h.paid,
      ap neg_part h.paid,
    ))

-- Outside Saturate_Mode an epoch empties every queue whose bytes fit into the deficit and the
-- quantum of its class, whatever the link's capacity is, unless the i64 counter overflows: its
-- quantum, its deficit with the quantum, and its queued bytes, also when charged to the deficit,
-- stay within an i64.
pub burst :
    (c : PriorityClass) (capacity : ℕ) (s : DrrScheduler)
    → s.saturate_mode ≡ false
    → Fits c 1 0 s
    → pos (bytes (queue_of c s)) ≤ℤ deficit_of c s +ℤ pos (quantum_of c s)
    → queue_of c (tick capacity s).1 ≡ []
burst c capacity s off room fits =
    nil_of_Served c s (tick capacity s).1 (sent_of capacity s c) (queue_of c (tick capacity s).1)
      (tick-Served capacity s c off room) refl fits

-- `n` epochs in a row
pub idle : ℕ → ℕ → DrrScheduler → DrrScheduler
idle zero capacity s = s
idle (suc n) capacity s = idle n capacity (tick capacity s).1

-- A class with nothing queued, `n` epochs after the scheduler was made, with room for `k` more
-- epochs and `a` bytes.
record IsIdle (c : PriorityClass) (n k a q : ℕ) (s : DrrScheduler) : Type 0 where
  empty : queue_of c s ≡ []
  saved : deficit_of c s ≡ pos (n * q)
  allotted : quantum_of c s ≡ q
  normal : s.saturate_mode ≡ false
  room : Fits c k a s

tick-IsIdle :
    (c : PriorityClass) (n k a q capacity : ℕ) (s : DrrScheduler)
    → IsIdle c n (suc k) a q s
    → IsIdle c (suc n) k a q (tick capacity s).1
tick-IsIdle c n k a q capacity s h =
    let v = tick-Served capacity s c h.normal (Fits-one c k a s h.room) in
    let none_sent =
      append-eq-nil (sent_of capacity s c) (queue_of c (tick capacity s).1) (v.fifo ∙ h.empty) in
    record {
      empty = none_sent.1;
      saved = omega (
        int_laws,
        ap bytes none_sent.0,
        ap pos_part h.saved,
        ap neg_part h.saved,
        h.allotted,
        ap pos_part v.paid,
        ap neg_part v.paid,
      );
      allotted = quantum-tick capacity s h.normal c ∙ h.allotted;
      normal = normal-tick capacity s h.normal;
      room = Fits-tick c k a capacity s h.normal h.room;
    }

idle-IsIdle :
    (c : PriorityClass) (m n k a q capacity : ℕ) (s : DrrScheduler)
    → IsIdle c n (m + k) a q s
    → IsIdle c (m + n) k a q (idle m capacity s)
unfolding idle
idle-IsIdle c zero n k a q capacity s h = rw zero-add (rw zero-add at h)
idle-IsIdle c (suc m) n k a q capacity s h =
    let e : m + suc n ≡ suc m + n = omega arith in
    let f : suc m + k ≡ suc (m + k) = omega arith in
    rw e at (
      idle-IsIdle c m (suc n) k a q capacity (tick capacity s).1
        (tick-IsIdle c n (m + k) a q capacity s (subst (λ i. IsIdle c n i a q s) f h)))

new-IsIdle :
    (c : PriorityClass) (capacity j a : ℕ)
    → (j + 1) * quantum_of c (new capacity) < 2 ^ 63
    → a < 2 ^ 63
    → IsIdle c 0 (j + 1) a (quantum_of c (new capacity)) (new capacity)
unfolding new
new-IsIdle c capacity j a h small =
    let q = quantum_of c (new capacity) in
    let more : (j + 1) * q ≡ q + j * q = omega arith in
    let nothing : queue_of c (new capacity) ≡ [] = ground arith in
    let zeroed : deficit_of c (new capacity) ≡ pos 0 = ground arith in
    record {
      empty = nothing;
      saved = ground arith;
      allotted = refl;
      normal = refl;
      room = record {
        quantum = omega (arith, more, h);
        queued = omega (arith, ap bytes nothing, small);
        upper = omega (int_laws, h, ap pos_part zeroed, ap neg_part zeroed);
        lower = omega (int_laws, ap bytes nothing, small, ap pos_part zeroed, ap neg_part zeroed);
      };
    }

same_class_refl : (c : PriorityClass) → same_class c c ≡ true
same_class_refl c = ground arith

queue-enqueue :
    (d : QueuedDelta) (s : DrrScheduler)
    → queue_of d.delta.priority (enqueue d s) ≡ queue_of d.delta.priority s ++ d ∷ []
unfolding enqueue
queue-enqueue d s = ground arith

-- The deficits grow in an idle scheduler: after `n` idle epochs a delta of up to `n + 1` quanta of
-- its class leaves in the next epoch, though the link carries one capacity, as long as these quanta
-- stay below 2 ^ 63 bytes.
pub idle_burst :
    (n capacity : ℕ) (d : QueuedDelta)
    → (n + 1) * quantum_of d.delta.priority (new capacity) < 2 ^ 63
    → d.serialized_len ≤ (n + 1) * quantum_of d.delta.priority (new capacity)
    → queue_of d.delta.priority (tick capacity (enqueue d (idle n capacity (new capacity)))).1 ≡ []
idle_burst n capacity d room fits =
    let c = d.delta.priority in
    let q = quantum_of c (new capacity) in
    let s = idle n capacity (new capacity) in
    let len = (if same_class c d.delta.priority then d.serialized_len else 0) + 0 in
    let small : len ≡ d.serialized_len = rw (same_class_refl c) (omega arith) in
    let h =
      idle-IsIdle c n 0 1 len q capacity (new capacity)
        (new-IsIdle c capacity n len room (omega (arith, small))) in
    let queued =
      ap bytes (queue-enqueue d s ∙ ap (λ (r : List QueuedDelta). r ++ d ∷ []) h.empty) in
    let saved = deficit-enqueue d s c ∙ h.saved in
    burst c capacity (enqueue d s) (normal-enqueue d s ∙ h.normal) (Fits-enqueue c 1 0 d s h.room) (
      omega
        (int_laws, queued, quantum-enqueue d s c, h.allotted, ap pos_part saved, ap neg_part saved))
