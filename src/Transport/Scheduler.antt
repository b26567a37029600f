-- ===== src/Transport/Scheduler.antt =====
-- tirbase-core/src/transport/scheduler.rs: the deficit round robin scheduler. The counters of i64
-- and the sums and products of u64 wrap around, as in a release build.
pub mod Drain
pub mod Fairness
pub mod Floor
pub mod Burst
mod Examples
use tir_base.Prelude.{
  ℕ, ◌+◌, ◌*◌, ◌/◌, ◌%◌, ◌^◌, Bool, true, false, not, ◌&&◌, ◌||◌, List, [], ◌∷◌, ◌++◌, ℤ, pos, ◌+ℤ◌,
  ◌-ℤ◌, i64, leb_ℤ, ltb_ℤ, if◌then◌else◌, is_empty, length,
}
use tir_base.Crdt.Delta.{Delta, PriorityClass, high, medium, low}

pub record QueuedDelta : Type 0 where
  pub delta : Delta
  pub serialized_len : ℕ
  pub enqueued_at : ℤ

pub record DrrScheduler : Type 0 where
  pub high_queue : List QueuedDelta
  pub medium_queue : List QueuedDelta
  pub low_queue : List QueuedDelta
  pub high_deficit : ℤ
  pub medium_deficit : ℤ
  pub low_deficit : ℤ
  pub high_quantum : ℕ
  pub medium_quantum : ℕ
  pub low_quantum : ℕ
  pub saturate_mode : Bool

abbrev pub u64_mod : ℕ
u64_mod = 2 ^ 64

-- `(capacity * percent) / 100` on u64
unfoldable pub quantum : ℕ → ℕ → ℕ
quantum capacity percent = capacity * percent % u64_mod / 100

unfoldable pub new : ℕ → DrrScheduler
unfolding quantum
new capacity = record {
  high_queue = [];
  medium_queue = [];
  low_queue = [];
  high_deficit = pos 0;
  medium_deficit = pos 0;
  low_deficit = pos 0;
  high_quantum = quantum capacity 70;
  medium_quantum = quantum capacity 20;
  low_quantum = quantum capacity 10;
  saturate_mode = false;
}

unfoldable pub update_link_capacity : ℕ → DrrScheduler → DrrScheduler
unfolding quantum
update_link_capacity capacity s = record s {
  high_quantum = quantum capacity 70;
  medium_quantum = quantum capacity 20;
  low_quantum = quantum capacity 10;
}

enqueue_class : PriorityClass → QueuedDelta → DrrScheduler → DrrScheduler
enqueue_class high d s = record s { high_queue = s.high_queue ++ d ∷ [] }
enqueue_class medium d s = record s { medium_queue = s.medium_queue ++ d ∷ [] }
enqueue_class low d s = record s { low_queue = s.low_queue ++ d ∷ [] }

unfoldable pub enqueue : QueuedDelta → DrrScheduler → DrrScheduler
unfolding enqueue_class
enqueue d s = enqueue_class d.delta.priority d s

-- `iter().map(|d| d.serialized_len).sum()`
abbrev pub bytes : List QueuedDelta → ℕ
bytes [] = 0
bytes (d ∷ q) = d.serialized_len + bytes q

pub record Drained : Type 0 where
  pub sent : List QueuedDelta
  pub queue : List QueuedDelta
  pub deficit : ℤ

-- what the `while let` loop sends, what stays in the queue, and `bytes_sent`
pub record Looped : Type 0 where
  pub sent : List QueuedDelta
  pub queue : List QueuedDelta
  pub bytes_sent : ℤ

abbrev with_front : QueuedDelta → Looped → Looped
with_front d r = record r { sent = d ∷ r.sent }

pub drain_loop : ℤ → ℤ → List QueuedDelta → Looped
drain_loop budget bytes_sent [] = record { sent = []; queue = []; bytes_sent = bytes_sent }
drain_loop budget bytes_sent (front ∷ queue) =
    let total = i64 (bytes_sent +ℤ i64 (pos front.serialized_len)) in
    let rest = drain_loop budget total queue in
    if leb_ℤ total budget
    then with_front front rest
    else record { sent = []; queue = front ∷ queue; bytes_sent = bytes_sent }

unfoldable pub drain_queue : List QueuedDelta → ℤ → ℤ → Drained
unfolding drain_loop
drain_queue queue budget deficit =
    let r = drain_loop budget (pos 0) queue in
    record { sent = r.sent; queue = r.queue; deficit = i64 (deficit -ℤ r.bytes_sent) }

-- one `if spare > 0 && !queue.is_empty()` of phase 3
unfoldable pub drain_spare : ℤ → List QueuedDelta → ℤ → Drained
drain_spare spare queue deficit =
    if ltb_ℤ (pos 0) spare && not (is_empty queue)
    then drain_queue queue spare deficit
    else record { sent = []; queue = queue; deficit = deficit }

-- `map(|d| d.serialized_len as i64).sum::<i64>()`
abbrev pub bytes_i64 : List QueuedDelta → ℤ
bytes_i64 [] = pos 0
bytes_i64 (d ∷ q) = i64 (i64 (pos d.serialized_len) +ℤ bytes_i64 q)

-- phase 1, for one class
abbrev pub with_quantum : ℤ → ℕ → ℤ
with_quantum deficit q = i64 (deficit +ℤ i64 (pos q))

-- One epoch without Saturate_Mode: the floors, then the spare capacity, HIGH → MEDIUM → LOW.
unfoldable pub tick_normal : ℕ → DrrScheduler → List QueuedDelta × DrrScheduler
tick_normal capacity s =
    let h_deficit = with_quantum s.high_deficit s.high_quantum in
    let m_deficit = with_quantum s.medium_deficit s.medium_quantum in
    let l_deficit = with_quantum s.low_deficit s.low_quantum in
    let h = drain_queue s.high_queue h_deficit h_deficit in
    let m = drain_queue s.medium_queue m_deficit m_deficit in
    let l = drain_queue s.low_queue l_deficit l_deficit in
    let total_sent = bytes h.sent + bytes m.sent + bytes l.sent in
    let spare = i64 (i64 (pos capacity) -ℤ i64 (pos (total_sent % u64_mod))) in
    let h' = drain_spare spare h.queue h.deficit in
    let spare' = i64 (spare -ℤ bytes_i64 h'.sent) in
    let m' = drain_spare spare' m.queue m.deficit in
    let spare'' = i64 (spare' -ℤ bytes_i64 m'.sent) in
    let l' = drain_spare spare'' l.queue l.deficit in
    (
      (h.sent ++ h'.sent) ++ (m.sent ++ m'.sent) ++ (l.sent ++ l'.sent),
      record s {
        high_queue = h'.queue;
        medium_queue = m'.queue;
        low_queue = l'.queue;
        high_deficit = h'.deficit;
        medium_deficit = m'.deficit;
        low_deficit = l'.deficit;
      },
    )

-- One epoch in Saturate_Mode: the whole capacity goes to HIGH.
unfoldable pub tick_saturate : ℕ → DrrScheduler → List QueuedDelta × DrrScheduler
tick_saturate capacity s =
    let h = drain_queue s.high_queue (i64 (pos capacity)) s.high_deficit in
    (h.sent, record s { high_queue = h.queue; high_deficit = h.deficit })

unfoldable pub tick : ℕ → DrrScheduler → List QueuedDelta × DrrScheduler
tick capacity s = if s.saturate_mode then tick_saturate capacity s else tick_normal capacity s

unfoldable pub set_saturate_mode : Bool → DrrScheduler → DrrScheduler
set_saturate_mode active s =
    let t = record s { saturate_mode = active } in
    if not active
    then record t { high_deficit = pos 0; medium_deficit = pos 0; low_deficit = pos 0 }
    else t

unfoldable pub has_backlog : DrrScheduler → Bool
has_backlog s =
    not (is_empty s.high_queue) || not (is_empty s.medium_queue) || not (is_empty s.low_queue)

unfoldable pub low_clearing_capacity : ℕ → ℕ
low_clearing_capacity capacity = (capacity * 10 % u64_mod / 100) * 10 % u64_mod
