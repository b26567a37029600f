-- ===== src/Transport/Scheduler/Drain.antt =====
-- What `drain_queue` of scheduler.rs, and its use on the spare capacity, do to one queue.
use tir_base.Prelude.{
  ℕ, ◌+◌, ◌-◌, ◌^◌, ◌<◌, ◌≡◌, refl, ap, ◌∙◌, ◌⊎◌, inl, inr, not, ◌&&◌, List, [], ◌∷◌, ◌++◌, arith,
  ℤ, pos, pos_part, neg_part, ◌+ℤ◌, ◌-ℤ◌, ◌≤ℤ◌, ◌<ℤ◌, leb_ℤ, ltb_ℤ, i64, i64-same, negsuc, int_laws,
  is_empty, Bool-cases,
}
use tir_base.Transport.Scheduler.{
  QueuedDelta, Drained, Looped, bytes, drain_loop, drain_queue, drain_spare,
}

pub bytes-append : (xs ys : List QueuedDelta) → bytes (xs ++ ys) ≡ bytes xs + bytes ys
bytes-append [] ys = omega arith
bytes-append (x ∷ xs) ys = omega (arith, bytes-append xs ys)

-- The front of the queue, if there is one, does not fit into the deficit.
abbrev pub IsServed : List QueuedDelta → ℤ → Type 0
IsServed queue deficit =
    (front : QueuedDelta) (rest : List QueuedDelta)
    → queue ≡ front ∷ rest
    → deficit <ℤ pos front.serialized_len

drain_loop-append :
    (budget b : ℤ) (queue : List QueuedDelta)
    → (drain_loop budget b queue).sent ++ (drain_loop budget b queue).queue ≡ queue
unfolding drain_loop
drain_loop-append budget b [] = refl
drain_loop-append budget b (d ∷ queue) =
    let total = i64 (b +ℤ i64 (pos d.serialized_len)) in
    elim (Bool-cases (leb_ℤ total budget)) [
      | inl e ↦ rw e (ap (λ q. d ∷ q) (drain_loop-append budget total queue))
      | inr e ↦ rw e refl
    ]

-- The loop without overflow: what it has sent so far and the queue stay below 2 ^ 63 bytes.
i64-sum : (b n : ℕ) → b + n < 2 ^ 63 → i64 (pos b +ℤ i64 (pos n)) ≡ pos (b + n)
i64-sum b n h =
    let e = i64-same (pos n) (omega arith, omega arith) in
    let s : pos b +ℤ pos n ≡ pos (b + n) = omega int_laws in
    rw e (rw s (i64-same (pos (b + n)) (omega arith, omega arith)))

-- what the loop has sent, and that it stops at a front that does not fit
record IsLoop (budget : ℤ) (b : ℕ) (r : Looped) : Type 0 where
  counted : r.bytes_sent ≡ pos (b + bytes r.sent)
  within : (r.sent ≡ []) ⊎ (pos (b + bytes r.sent) ≤ℤ budget)
  stuck :
      (front : QueuedDelta) (rest : List QueuedDelta)
      → r.queue ≡ front ∷ rest
      → budget <ℤ pos (b + bytes r.sent + front.serialized_len)

drain_loop-IsLoop :
    (budget : ℤ) (b : ℕ) (queue : List QueuedDelta)
    → b + bytes queue < 2 ^ 63
    → IsLoop budget b (drain_loop budget (pos b) queue)
unfolding drain_loop
drain_loop-IsLoop budget b [] h = record {
  counted = ap pos (omega arith);
  within = inl refl;
  stuck = λ front rest e. cc;
}
drain_loop-IsLoop budget b (d ∷ queue) h =
    let n = b + d.serialized_len in
    let e = i64-sum b d.serialized_len (omega arith) in
    let r = drain_loop-IsLoop budget n queue (omega arith) in
    rw e (elim (Bool-cases (leb_ℤ (pos n) budget)) [
      | inl fits ↦ rw fits (record {
        counted = r.counted ∙ ap pos (omega arith);
        within = inr (elim r.within [
          | inl none_sent ↦ ground (arith, fits, ap bytes none_sent)
          | inr some_sent ↦ omega (arith, some_sent)
        ]);
        stuck = λ front rest q. omega (arith, r.stuck front rest q);
      })
      | inr full ↦ rw full (record {
        counted = ap pos (omega arith);
        within = inl refl;
        stuck = λ front rest q. ground (arith, full, q);
      })
    ])

-- The queue and the deficit leave room in an i64: whatever is sent, no sum overflows.
pub record HasRoom (queue : List QueuedDelta) (deficit : ℤ) : Type 0 where
  pub queued : bytes queue < 2 ^ 63
  pub upper : deficit <ℤ pos (2 ^ 63)
  pub lower : negsuc (2 ^ 63 - 1) +ℤ pos (bytes queue) ≤ℤ deficit

-- The loop sends a prefix of the queue, keeps the rest, and takes its bytes from the deficit.
pub record IsDrain (queue : List QueuedDelta) (deficit : ℤ) (r : Drained) : Type 0 where
  pub fifo : r.sent ++ r.queue ≡ queue
  pub paid : r.deficit +ℤ pos (bytes r.sent) ≡ deficit

pub HasRoom-IsDrain :
    (queue : List QueuedDelta) (deficit : ℤ) (r : Drained)
    → HasRoom queue deficit
    → IsDrain queue deficit r
    → HasRoom r.queue r.deficit
HasRoom-IsDrain queue deficit r h d =
    let sum = bytes-append r.sent r.queue in
    let same = ap bytes d.fifo in
    record {
      queued = omega (arith, sum, same, h.queued);
      upper = omega (int_laws, h.upper, ap pos_part d.paid, ap neg_part d.paid);
      lower = omega (int_laws, sum, same, h.lower, ap pos_part d.paid, ap neg_part d.paid);
    }

pub drain_queue-fifo :
    (queue : List QueuedDelta) (budget deficit : ℤ)
    → (drain_queue queue budget deficit).sent ++ (drain_queue queue budget deficit).queue ≡ queue
unfolding drain_queue
drain_queue-fifo queue budget deficit = drain_loop-append budget (pos 0) queue

pub drain_queue-IsDrain :
    (queue : List QueuedDelta) (budget deficit : ℤ)
    → HasRoom queue deficit
    → IsDrain queue deficit (drain_queue queue budget deficit)
unfolding drain_queue
drain_queue-IsDrain queue budget deficit h =
    let r = drain_loop budget (pos 0) queue in
    let l = drain_loop-IsLoop budget 0 queue (omega (arith, h.queued)) in
    let split = bytes-append r.sent r.queue in
    let same = ap bytes (drain_loop-append budget (pos 0) queue) in
    let z = deficit -ℤ r.bytes_sent in
    let left : i64 z ≡ z = i64-same z (
      omega (int_laws, h.lower, split, same, ap pos_part l.counted, ap neg_part l.counted),
      omega (int_laws, h.upper, ap pos_part l.counted, ap neg_part l.counted),
    ) in
    record {
      fifo = drain_loop-append budget (pos 0) queue;
      paid = omega (
        int_laws,
        ap pos_part left,
        ap neg_part left,
        ap pos_part l.counted,
        ap neg_part l.counted,
      );
    }

pub drain_queue_within :
    (queue : List QueuedDelta) (budget deficit : ℤ)
    → bytes queue < 2 ^ 63
    → ((drain_queue queue budget deficit).sent ≡ [])
      ⊎ (pos (bytes (drain_queue queue budget deficit).sent) ≤ℤ budget)
unfolding drain_queue
drain_queue_within queue budget deficit h =
    elim (drain_loop-IsLoop budget 0 queue (omega (arith, h))).within [
      | inl e ↦ inl e
      | inr e ↦ inr (omega (arith, e))
    ]

drain_queue_stuck :
    (queue : List QueuedDelta) (deficit : ℤ) (front : QueuedDelta) (rest : List QueuedDelta)
    → bytes queue < 2 ^ 63
    → (drain_queue queue deficit deficit).queue ≡ front ∷ rest
    → deficit <ℤ pos (bytes (drain_queue queue deficit deficit).sent + front.serialized_len)
unfolding drain_queue
drain_queue_stuck queue deficit front rest h e =
    omega (arith, (drain_loop-IsLoop deficit 0 queue (omega (arith, h))).stuck front rest e)

-- A queue drained on its own deficit is served.
pub drain_queue-IsServed :
    (queue : List QueuedDelta) (deficit : ℤ)
    → HasRoom queue deficit
    → IsServed (drain_queue queue deficit deficit).queue (drain_queue queue deficit deficit).deficit
drain_queue-IsServed queue deficit h front rest e =
    let paid = (drain_queue-IsDrain queue deficit deficit h).paid in
    let l = drain_queue_stuck queue deficit front rest h.queued e in
    omega (int_laws, l, ap pos_part paid, ap neg_part paid)

pub drain_spare-fifo :
    (spare : ℤ) (queue : List QueuedDelta) (deficit : ℤ)
    → (drain_spare spare queue deficit).sent ++ (drain_spare spare queue deficit).queue ≡ queue
unfolding drain_spare
drain_spare-fifo spare queue deficit =
    elim (Bool-cases (ltb_ℤ (pos 0) spare && not (is_empty queue))) [
      | inl e ↦ rw e (drain_queue-fifo queue spare deficit)
      | inr e ↦ rw e refl
    ]

pub drain_spare-IsDrain :
    (spare : ℤ) (queue : List QueuedDelta) (deficit : ℤ)
    → HasRoom queue deficit
    → IsDrain queue deficit (drain_spare spare queue deficit)
unfolding drain_spare
drain_spare-IsDrain spare queue deficit h =
    elim (Bool-cases (ltb_ℤ (pos 0) spare && not (is_empty queue))) [
      | inl e ↦ rw e (drain_queue-IsDrain queue spare deficit h)
      | inr e ↦ rw e (record { fifo = refl; paid = omega int_laws })
    ]

-- Spare capacity goes to the front that did not fit, so it leaves the queue served.
IsServed-cons :
    (sent rest queue : List QueuedDelta) (deficit deficit' : ℤ)
    → IsServed queue deficit
    → sent ++ rest ≡ queue
    → deficit' +ℤ pos (bytes sent) ≡ deficit
    → IsServed rest deficit'
IsServed-cons [] rest queue deficit deficit' h e p front r q =
    omega (int_laws, h front r (cc), ap pos_part p, ap neg_part p)
IsServed-cons (d ∷ sent) rest queue deficit deficit' h e p front r q =
    omega (int_laws, h d (sent ++ rest) (cc), ap pos_part p, ap neg_part p)

pub drain_spare-IsServed :
    (spare : ℤ) (queue : List QueuedDelta) (deficit : ℤ)
    → HasRoom queue deficit
    → IsServed queue deficit
    → IsServed (drain_spare spare queue deficit).queue (drain_spare spare queue deficit).deficit
drain_spare-IsServed spare queue deficit room h =
    let r = drain_spare spare queue deficit in
    let d = drain_spare-IsDrain spare queue deficit room in
    IsServed-cons r.sent r.queue queue deficit r.deficit h d.fifo d.paid
