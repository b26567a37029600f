-- ===== src/Transport/Scheduler/Floor.antt =====
-- The bandwidth floors of scheduler.rs over a run of epochs with arrivals between them.
use tir_base.Prelude.{
  ℕ, suc, ◌+◌, ◌*◌, ◌≡◌, refl, ap, ◌∙◌, Bool, true, false, List, [], ◌∷◌, ◌++◌, arith, pos,
  pos_part, neg_part, ◌+ℤ◌, ◌<ℤ◌, int_laws, if◌then◌else◌, All, All-append,
}
use tir_base.Crdt.Delta.{PriorityClass, high, medium, low}
use tir_base.Transport.Scheduler.{
  QueuedDelta, DrrScheduler, bytes, tick, tick_normal, enqueue, enqueue_class,
}
use tir_base.Transport.Scheduler.Fairness.{
  queue_of, deficit_of, quantum_of, Fits, Fits-one, sent_of, tick-fifo, tick-Served,
}
use tir_base.Transport.Scheduler.Drain.{bytes-append}
use mathlib.Core.Path.{subst}
use native.Mathlib.Nat.{zero-add}

abbrev pub same_class : PriorityClass → PriorityClass → Bool
same_class high high = true
same_class medium medium = true
same_class low low = true
same_class _ _ = false

-- The bytes in a list of deltas whose class is `c`.
abbrev pub class_bytes : PriorityClass → List QueuedDelta → ℕ
class_bytes c [] = 0
class_bytes c (d ∷ q) =
    (if same_class c d.delta.priority then d.serialized_len else 0) + class_bytes c q

-- A queue holds deltas of its class only.
abbrev pub IsOfClass : PriorityClass → List QueuedDelta → Type 0
IsOfClass c q = All (λ d. d.delta.priority ≡ c) q

pub record IsSorted (s : DrrScheduler) : Type 0 where
  pub class_of : (c : PriorityClass) → IsOfClass c (queue_of c s)
  pub normal : s.saturate_mode ≡ false

class_bytes-append :
    (c : PriorityClass) (xs ys : List QueuedDelta)
    → class_bytes c (xs ++ ys) ≡ class_bytes c xs + class_bytes c ys
class_bytes-append c [] ys = omega arith
class_bytes-append c (x ∷ xs) ys = omega (arith, class_bytes-append c xs ys)

class_bytes_of_class :
    (c k : PriorityClass) (q : List QueuedDelta)
    → IsOfClass k q
    → class_bytes c q ≡ (if same_class c k then bytes q else 0)
class_bytes_of_class c k [] h = ground arith
class_bytes_of_class c k (d ∷ q) h = rw h.0 (ground (arith, class_bytes_of_class c k q h.1))

All-split {ℓ κ} :
    {A : Type ℓ} (P : A → Type κ) (xs ys : List A) → All P (xs ++ ys) → All P xs × All P ys
All-split P [] ys h = (tt, h)
All-split P (x ∷ xs) ys h = let r = All-split P xs ys h.1 in ((h.0, r.0), r.1)

-- the deltas of class `c` in an epoch's result are the ones taken from its queue
class_bytes-order :
    (c : PriorityClass) (sent : PriorityClass → List QueuedDelta)
    → ((k : PriorityClass) → IsOfClass k (sent k))
    → class_bytes c (sent high ++ sent medium ++ sent low) ≡ bytes (sent c)
class_bytes-order c sent h =
    class_bytes-append c (sent high ++ sent medium) (sent low)
    ∙ ground (
      arith,
      class_bytes-append c (sent high) (sent medium),
      class_bytes_of_class c high (sent high) (h high),
      class_bytes_of_class c medium (sent medium) (h medium),
      class_bytes_of_class c low (sent low) (h low),
    )

module _ (capacity : ℕ) (s : DrrScheduler) (off : s.saturate_mode ≡ false) where
  pub normal-tick : (tick capacity s).1.saturate_mode ≡ false
  unfolding tick tick_normal
  normal-tick = ground (arith, off)

  pub quantum-tick : (c : PriorityClass) → quantum_of c (tick capacity s).1 ≡ quantum_of c s
  unfolding tick tick_normal
  quantum-tick high = ground (arith, off)
  quantum-tick medium = ground (arith, off)
  quantum-tick low = ground (arith, off)

module _ (capacity : ℕ) (s : DrrScheduler) (sorted : IsSorted s) where
  split_class :
      (c : PriorityClass)
      → IsOfClass c (sent_of capacity s c) × IsOfClass c (queue_of c (tick capacity s).1)
  split_class c =
      All-split (λ d. d.delta.priority ≡ c) (sent_of capacity s c) (queue_of c (tick capacity s).1)
        (rw ((tick-fifo capacity s sorted.normal).1 c) (sorted.class_of c))

  pub class_bytes-tick :
      (c : PriorityClass) → class_bytes c (tick capacity s).0 ≡ bytes (sent_of capacity s c)
  class_bytes-tick c =
      rw (tick-fifo capacity s sorted.normal).0
        (class_bytes-order c (sent_of capacity s) (λ k. (split_class k).0))

  pub tick-IsSorted : IsSorted (tick capacity s).1
  tick-IsSorted = record {
    class_of = λ c. (split_class c).1;
    normal = normal-tick capacity s sorted.normal;
  }

module _ (d : QueuedDelta) (s : DrrScheduler) where
  enqueue_class-IsOfClass :
      (p c : PriorityClass)
      → d.delta.priority ≡ p
      → IsOfClass c (queue_of c s)
      → IsOfClass c (queue_of c (enqueue_class p d s))
  unfolding enqueue_class
  enqueue_class-IsOfClass high high e h = All-append _ s.high_queue (d ∷ []) h (e, tt)
  enqueue_class-IsOfClass medium medium e h = All-append _ s.medium_queue (d ∷ []) h (e, tt)
  enqueue_class-IsOfClass low low e h = All-append _ s.low_queue (d ∷ []) h (e, tt)
  enqueue_class-IsOfClass high medium e h = h
  enqueue_class-IsOfClass high low e h = h
  enqueue_class-IsOfClass medium high e h = h
  enqueue_class-IsOfClass medium low e h = h
  enqueue_class-IsOfClass low high e h = h
  enqueue_class-IsOfClass low medium e h = h

  pub normal-enqueue : (enqueue d s).saturate_mode ≡ s.saturate_mode
  unfolding enqueue
  normal-enqueue = ground arith

  pub enqueue-IsSorted : IsSorted s → IsSorted (enqueue d s)
  unfolding enqueue
  enqueue-IsSorted h = record {
    class_of = λ c. enqueue_class-IsOfClass d.delta.priority c refl (h.class_of c);
    normal = normal-enqueue ∙ h.normal;
  }

  pub deficit-enqueue : (c : PriorityClass) → deficit_of c (enqueue d s) ≡ deficit_of c s
  unfolding enqueue
  deficit-enqueue c = ground arith

  pub quantum-enqueue : (c : PriorityClass) → quantum_of c (enqueue d s) ≡ quantum_of c s
  unfolding enqueue
  quantum-enqueue c = ground arith

-- What happens to a scheduler outside Saturate_Mode: a delta arrives, or an epoch passes.
pub data Event : Type 0 where
  arrive : QueuedDelta → Event
  epoch : ℕ → Event

unfoldable pub run : List Event → DrrScheduler → DrrScheduler
run [] s = s
run (arrive d ∷ es) s = run es (enqueue d s)
run (epoch capacity ∷ es) s = run es (tick capacity s).1

-- the bytes of class `c` that the epochs of a run transmit
unfoldable pub transmitted : PriorityClass → List Event → DrrScheduler → ℕ
transmitted c [] s = 0
transmitted c (arrive d ∷ es) s = transmitted c es (enqueue d s)
transmitted c (epoch capacity ∷ es) s =
    class_bytes c (tick capacity s).0 + transmitted c es (tick capacity s).1

abbrev pub epochs : List Event → ℕ
epochs [] = 0
epochs (arrive d ∷ es) = epochs es
epochs (epoch capacity ∷ es) = suc (epochs es)

pub run-IsSorted : (es : List Event) (s : DrrScheduler) → IsSorted s → IsSorted (run es s)
unfolding run
run-IsSorted [] s h = h
run-IsSorted (arrive d ∷ es) s h = run-IsSorted es (enqueue d s) (enqueue-IsSorted d s h)
run-IsSorted (epoch capacity ∷ es) s h =
    run-IsSorted es (tick capacity s).1 (tick-IsSorted capacity s h)

quantum-run :
    (c : PriorityClass) (es : List Event) (s : DrrScheduler)
    → IsSorted s
    → quantum_of c (run es s) ≡ quantum_of c s
unfolding run
quantum-run c [] s h = refl
quantum-run c (arrive d ∷ es) s h =
    quantum-run c es (enqueue d s) (enqueue-IsSorted d s h) ∙ quantum-enqueue d s c
quantum-run c (epoch capacity ∷ es) s h =
    quantum-run c es (tick capacity s).1 (tick-IsSorted capacity s h)
    ∙ quantum-tick capacity s h.normal c

-- the bytes of class `c` that arrive in a run
abbrev pub arrived : PriorityClass → List Event → ℕ
arrived c [] = 0
arrived c (arrive d ∷ es) =
    (if same_class c d.delta.priority then d.serialized_len else 0) + arrived c es
arrived c (epoch capacity ∷ es) = arrived c es

bytes-enqueue :
    (c : PriorityClass) (d : QueuedDelta) (s : DrrScheduler)
    → bytes (queue_of c (enqueue d s))
      ≡ bytes (queue_of c s) + (if same_class c d.delta.priority then d.serialized_len else 0)
unfolding enqueue
bytes-enqueue c d s = queued c d.delta.priority
  where
    queued :
        (c p : PriorityClass)
        → bytes (queue_of c (enqueue_class p d s))
          ≡ bytes (queue_of c s) + (if same_class c p then d.serialized_len else 0)
    queued high high = omega (arith, bytes-append s.high_queue (d ∷ []))
    queued medium medium = omega (arith, bytes-append s.medium_queue (d ∷ []))
    queued low low = omega (arith, bytes-append s.low_queue (d ∷ []))
    queued high medium = omega arith
    queued high low = omega arith
    queued medium high = omega arith
    queued medium low = omega arith
    queued low high = omega arith
    queued low medium = omega arith

pub Fits-enqueue :
    (c : PriorityClass) (k a : ℕ) (d : QueuedDelta) (s : DrrScheduler)
    → Fits c k ((if same_class c d.delta.priority then d.serialized_len else 0) + a) s
    → Fits c k a (enqueue d s)
Fits-enqueue c k a d s f =
    let b = bytes-enqueue c d s in
    let q = quantum-enqueue d s c in
    let e = deficit-enqueue d s c in
    record {
      quantum = rw q f.quantum;
      queued = omega (arith, b, f.queued);
      upper = rw (q, e) f.upper;
      lower = rw e (omega (int_laws, b, f.lower));
    }

pub Fits-tick :
    (c : PriorityClass) (k a capacity : ℕ) (s : DrrScheduler)
    → s.saturate_mode ≡ false
    → Fits c (suc k) a s
    → Fits c k a (tick capacity s).1
Fits-tick c k a capacity s off f =
    let v = tick-Served capacity s c off (Fits-one c k a s f) in
    let sum = bytes-append (sent_of capacity s c) (queue_of c (tick capacity s).1) in
    let same = ap bytes v.fifo in
    let q = quantum-tick capacity s off c in
    let more : suc k * quantum_of c s ≡ quantum_of c s + k * quantum_of c s = omega arith in
    record {
      quantum = rw q f.quantum;
      queued = omega (arith, sum, same, f.queued);
      upper = rw q (omega (int_laws, more, f.upper, ap pos_part v.paid, ap neg_part v.paid));
      lower = omega (int_laws, sum, same, f.lower, ap pos_part v.paid, ap neg_part v.paid);
    }

-- Over a run without overflow, the deficit of a class moves by its quantum for each epoch, less what
-- it transmitted, and there is room for what is left.
pub transmitted-paid :
    (c : PriorityClass) (k a : ℕ) (es : List Event) (s : DrrScheduler)
    → IsSorted s
    → Fits c (epochs es + k) (arrived c es + a) s
    → (deficit_of c (run es s) +ℤ pos (transmitted c es s)
        ≡ deficit_of c s +ℤ pos (epochs es * quantum_of c s))
      × Fits c k a (run es s)
unfolding run transmitted
transmitted-paid c k a [] s h f = (
  omega int_laws,
  subst (λ n. Fits c n a s) (zero-add k) (subst (λ n. Fits c (0 + k) n s) (zero-add a) f),
)
transmitted-paid c k a (arrive d ∷ es) s h f =
    let here = if same_class c d.delta.priority then d.serialized_len else 0 in
    let e : here + arrived c es + a ≡ here + (arrived c es + a) = omega arith in
    rw (← deficit-enqueue d s c, ← quantum-enqueue d s c)
      (transmitted-paid c k a es (enqueue d s) (enqueue-IsSorted d s h) (
        Fits-enqueue c (epochs es + k) (arrived c es + a) d s
          (subst (λ n. Fits c (epochs es + k) n s) e f)))
transmitted-paid c k a (epoch capacity ∷ es) s h f =
    let e : suc (epochs es) + k ≡ suc (epochs es + k) = omega arith in
    let g = subst (λ n. Fits c n (arrived c es + a) s) e f in
    let rest =
      transmitted-paid c k a es (tick capacity s).1 (tick-IsSorted capacity s h)
        (Fits-tick c (epochs es + k) (arrived c es + a) capacity s h.normal g) in
    let paid =
      (tick-Served capacity s c h.normal
        (Fits-one c (epochs es + k) (arrived c es + a) s g)).paid in
    (
      omega (
        int_laws,
        class_bytes-tick capacity s h c,
        ap (λ (q : ℕ). epochs es * q) (quantum-tick capacity s h.normal c),
        ap pos_part rest.0,
        ap neg_part rest.0,
        ap pos_part paid,
        ap neg_part paid,
      ),
      rest.1,
    )

-- From any scheduler outside Saturate_Mode, after any run of arrivals and epochs and one more
-- epoch, in which the i64 counter of a class does not overflow: if the class still has a delta
-- waiting, then what the class had as deficit, plus its quantum for every epoch, is less than what
-- it transmitted plus the length of that delta. There is no overflow if the deficit with the quanta
-- of all epochs stays below 2 ^ 63, and so do the bytes queued or arriving, also when they are
-- charged to the deficit.
pub floor :
    (c : PriorityClass) (es : List Event) (s : DrrScheduler) (capacity : ℕ) (front : QueuedDelta)
    (rest : List QueuedDelta)
    → IsSorted s
    → Fits c (epochs es + 1) (arrived c es) s
    → queue_of c (tick capacity (run es s)).1 ≡ front ∷ rest
    → deficit_of c s +ℤ pos ((epochs es + 1) * quantum_of c s)
      <ℤ pos
          (transmitted c es s + class_bytes c (tick capacity (run es s)).0 + front.serialized_len)
floor c es s capacity front rest h f e =
    let sorted = run-IsSorted es s h in
    let none_more : arrived c es ≡ arrived c es + 0 = omega arith in
    let before =
      transmitted-paid c 1 0 es s h (subst (λ n. Fits c (epochs es + 1) n s) none_more f) in
    let served = tick-Served capacity (run es s) c sorted.normal before.1 in
    omega (
      int_laws,
      class_bytes-tick capacity (run es s) sorted c,
      quantum-run c es s h,
      served.served front rest e,
      ap pos_part before.0,
      ap neg_part before.0,
      ap pos_part served.paid,
      ap neg_part served.paid,
    )
