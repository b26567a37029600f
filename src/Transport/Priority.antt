-- ===== src/Transport/Priority.antt =====
-- tirbase-core/src/transport/priority.rs: the priority class that a new delta is given.
mod Examples
use tir_base.Prelude.{◌≡◌, ◌≢◌, refl, List, [], ◌∷◌, arith}
use tir_base.Crdt.Delta.{Delta, PriorityClass, high, medium, low}

pub data PayloadFlag : Type 0 where
  revocation safety_alert emergency_alert : PayloadFlag
  peer_reachability link_state session_validity : PayloadFlag

pub classify : Delta → PriorityClass
classify delta = delta.priority

-- the loop over the flags, with the running `result`
classify_loop : PriorityClass → List PayloadFlag → PriorityClass
classify_loop result [] = result
classify_loop result (revocation ∷ flags) = high
classify_loop result (safety_alert ∷ flags) = high
classify_loop result (emergency_alert ∷ flags) = high
classify_loop result (peer_reachability ∷ flags) = classify_loop medium flags
classify_loop result (link_state ∷ flags) = classify_loop medium flags
classify_loop result (session_validity ∷ flags) = classify_loop medium flags

pub classify_with_flags : List PayloadFlag → PriorityClass
unfolding classify_loop
classify_with_flags flags = classify_loop low flags

-- The tier that the table of the documentation gives to one flag.
abbrev pub tier : PayloadFlag → PriorityClass
tier revocation = high
tier safety_alert = high
tier emergency_alert = high
tier peer_reachability = medium
tier link_state = medium
tier session_validity = medium

abbrev pub higher : PriorityClass → PriorityClass → PriorityClass
higher high b = high
higher medium high = high
higher medium medium = medium
higher medium low = medium
higher low b = b

abbrev pub highest : List PayloadFlag → PriorityClass
highest [] = low
highest (f ∷ flags) = higher (tier f) (highest flags)

-- the running result is never HIGH: the loop returns at once
classify_loop-eq-higher :
    (result : PriorityClass) (flags : List PayloadFlag)
    → result ≢ high
    → classify_loop result flags ≡ higher result (highest flags)
unfolding classify_loop
classify_loop-eq-higher high flags h = absurd (h refl)
classify_loop-eq-higher medium [] h = refl
classify_loop-eq-higher low [] h = refl
classify_loop-eq-higher result (revocation ∷ flags) h = ground arith
classify_loop-eq-higher result (safety_alert ∷ flags) h = ground arith
classify_loop-eq-higher result (emergency_alert ∷ flags) h = ground arith
classify_loop-eq-higher result (f ∷ flags) h =
    ground (arith, classify_loop-eq-higher medium flags (λ e. cc e))

-- The class given to a set of flags is the highest of the tiers of the flags, LOW with none.
pub classify_with_flags-eq-highest :
    (flags : List PayloadFlag) → classify_with_flags flags ≡ highest flags
unfolding classify_with_flags
classify_with_flags-eq-highest flags = ground (arith, classify_loop-eq-higher low flags (λ e. cc e))
