-- ===== src/Transport/Fragment/Whole.antt =====
-- What `fragment` makes: pieces within the MTU, in order, whose payloads are the bytes; and that
-- `reassemble` undoes it in whatever order the pieces come.
use mathlib.Core.Path.{subst, ap₂}
use mathlib.Core.List.{Permᴰ}
use tir_base.Prelude.{
  ℕ, zero, suc, ◌+◌, ◌%◌, ◌^◌, ◌≤◌, ◌<◌, ◌≡◌, refl, sym, ap, ◌∙◌, true, List, [], ◌∷◌, ◌++◌, arith,
  length, All, all, nat_eq,
}
use tir_base.Crdt.Delta.{DeltaId, Did}
use tir_base.Error.{ok}
use tir_base.Transport.Fragment.{
  DeltaFragment, take, drop, chunks, numbered, fragment, sort_by_index, matches, payloads,
  reassemble,
}
use tir_base.Transport.Fragment.Sorting.{
  sort_by_index-perm, length-perm, all-perm, InOrder, InOrder-all-matches, InOrder-in_sequence,
  sort_by_index-InOrder, InOrder-Distinct,
}

pub take-append-drop : (n : ℕ) (xs : List ℕ) → take n xs ++ drop n xs ≡ xs
take-append-drop (suc n) (x ∷ xs) = ap (◌∷◌ x) (take-append-drop n xs)
take-append-drop (suc n) [] = refl
take-append-drop zero xs = refl

length-drop-le : (n : ℕ) (xs : List ℕ) → length (drop n xs) ≤ length xs
length-drop-le (suc n) (x ∷ xs) = omega (arith, length-drop-le n xs)
length-drop-le (suc n) [] = omega arith
length-drop-le zero xs = omega arith

length-take-le : (n : ℕ) (xs : List ℕ) → length (take n xs) ≤ n
length-take-le (suc n) (x ∷ xs) = omega (arith, length-take-le n xs)
length-take-le (suc n) [] = omega arith
length-take-le zero xs = omega arith

-- a chunk has at least one byte and at most `mtu`
abbrev pub Fits : ℕ → List ℕ → Type 0
Fits mtu chunk = (1 ≤ length chunk) × (length chunk ≤ mtu)

chunks-All-Fits : (n mtu : ℕ) (bytes : List ℕ) → All (Fits (suc mtu)) (chunks n (suc mtu) bytes)
unfolding chunks
chunks-All-Fits (suc n) mtu (b ∷ bytes) =
    ((omega arith, omega (arith, length-take-le mtu bytes)), chunks-All-Fits n mtu (drop mtu bytes))
chunks-All-Fits (suc n) mtu [] = tt
chunks-All-Fits zero mtu bytes = tt

payloads-numbered-chunks :
    (id total i n mtu : ℕ) (bytes : List ℕ)
    → length bytes ≤ n
    → payloads (numbered id total i (chunks n (suc mtu) bytes)) ≡ bytes
unfolding chunks numbered
payloads-numbered-chunks id total i (suc n) mtu (b ∷ bytes) h = ap (◌∷◌ b) (
    ap (◌++◌ (take mtu bytes)) (
      payloads-numbered-chunks id total (suc i) n mtu (drop mtu bytes)
        (omega (arith, length-drop-le mtu bytes)))
    ∙ take-append-drop mtu bytes)
payloads-numbered-chunks id total i (suc n) mtu [] h = refl
payloads-numbered-chunks id total i zero mtu [] h = refl
payloads-numbered-chunks id total i zero mtu (b ∷ bytes) h = absurd (omega arith)

length-numbered :
    (id total i : ℕ) (cut : List (List ℕ)) → length (numbered id total i cut) ≡ length cut
unfolding numbered
length-numbered id total i [] = refl
length-numbered id total i (c ∷ cut) = ap suc (length-numbered id total (suc i) cut)

numbered-InOrder :
    (id total i : ℕ) (cut : List (List ℕ))
    → i + length cut ≤ 2 ^ 32
    → InOrder id total i (numbered id total i cut)
unfolding numbered
numbered-InOrder id total i [] h = tt
numbered-InOrder id total i (c ∷ cut) h =
    (refl, omega arith, refl, numbered-InOrder id total (suc i) cut (omega arith))

numbered-All-Fits :
    (id total i mtu : ℕ) (cut : List (List ℕ))
    → All (Fits mtu) cut
    → All (λ f. Fits mtu f.payload) (numbered id total i cut)
unfolding numbered
numbered-All-Fits id total i mtu [] h = tt
numbered-All-Fits id total i mtu (c ∷ cut) h = (h.0, numbered-All-Fits id total (suc i) mtu cut h.1)

some_chunk :
    (b mtu : ℕ) (bytes : List ℕ) → 1 ≤ length (chunks (length (b ∷ bytes)) (suc mtu) (b ∷ bytes))
unfolding chunks
some_chunk b mtu bytes = omega arith

abbrev cut_up : ℕ → List ℕ → List (List ℕ)
cut_up mtu bytes = chunks (length bytes) mtu bytes

fragment-suc :
    (delta_id b mtu : ℕ) (bytes : List ℕ)
    → fragment delta_id (b ∷ bytes) (suc mtu)
      ≡ numbered delta_id
          (length (cut_up (suc mtu) (b ∷ bytes)) % 2 ^ 32)
          0
          (cut_up (suc mtu) (b ∷ bytes))
unfolding fragment
fragment-suc delta_id b mtu bytes = ground arith

-- Every fragment carries at least one byte and no more than the MTU allows.
pub fragment-All-Fits :
    (delta_id : DeltaId) (bytes : List ℕ) (mtu : ℕ)
    → All (λ f. Fits mtu f.payload) (fragment delta_id bytes mtu)
unfolding fragment
fragment-All-Fits delta_id [] mtu = tt
fragment-All-Fits delta_id (b ∷ bytes) zero = tt
fragment-All-Fits delta_id (b ∷ bytes) (suc mtu) = rw (fragment-suc delta_id b mtu bytes) (
    numbered-All-Fits delta_id (length (cut_up (suc mtu) (b ∷ bytes)) % 2 ^ 32) 0 (suc mtu)
      (cut_up (suc mtu) (b ∷ bytes)) (chunks-All-Fits (length (b ∷ bytes)) mtu (b ∷ bytes)))

-- The fragments of a delta: in order, numbered from 0 up to their total, with the bytes in them.
pub record Complete (delta_id : DeltaId) (bytes : List ℕ) (fs : List DeltaFragment) : Type 0 where
  pub some_fragment : 1 ≤ length fs
  pub in_order : InOrder delta_id (length fs) 0 fs
  pub whole : payloads fs ≡ bytes

numbered-Complete :
    (delta_id : DeltaId) (bytes : List ℕ) (cut : List (List ℕ))
    → 1 ≤ length cut
    → length cut < 2 ^ 32
    → payloads (numbered delta_id (length cut % 2 ^ 32) 0 cut) ≡ bytes
    → Complete delta_id bytes (numbered delta_id (length cut % 2 ^ 32) 0 cut)
numbered-Complete delta_id bytes cut some_cut bound whole =
    let same : length cut % 2 ^ 32 ≡ length (numbered delta_id (length cut % 2 ^ 32) 0 cut) =
      omega (arith, length-numbered delta_id (length cut % 2 ^ 32) 0 cut) in
    record {
      some_fragment = omega arith;
      in_order =
          subst (λ n. InOrder delta_id n 0 (numbered delta_id (length cut % 2 ^ 32) 0 cut)) same
            (numbered-InOrder delta_id (length cut % 2 ^ 32) 0 cut (omega arith));
      whole = whole;
    }

-- below the `u32` bound
pub fragment-Complete :
    (delta_id : DeltaId) (bytes : List ℕ) (mtu : ℕ)
    → 1 ≤ length bytes
    → 1 ≤ mtu
    → length (fragment delta_id bytes mtu) < 2 ^ 32
    → Complete delta_id bytes (fragment delta_id bytes mtu)
fragment-Complete delta_id [] mtu some_byte some_room bound = absurd (omega arith)
fragment-Complete delta_id (b ∷ bytes) zero some_byte some_room bound = absurd (omega arith)
fragment-Complete delta_id (b ∷ bytes) (suc mtu) some_byte some_room bound =
    let cut = cut_up (suc mtu) (b ∷ bytes) in
    let n = length-numbered delta_id (length cut % 2 ^ 32) 0 cut in
    let e = fragment-suc delta_id b mtu bytes in
    rw e (
      numbered-Complete delta_id (b ∷ bytes) cut (some_chunk b mtu bytes)
        (omega (arith, n, ap length e))
        (payloads-numbered-chunks delta_id (length cut % 2 ^ 32) 0 (length (b ∷ bytes)) mtu
          (b ∷ bytes) (omega arith)))

-- Fragments that are complete reassemble to the bytes, whatever the order they come in.
pub reassemble-Complete :
    {delta_id : DeltaId} {bytes : List ℕ} {fs order : List DeltaFragment} (sender_did : Did)
    → Complete delta_id bytes fs
    → length fs < 2 ^ 32
    → Permᴰ fs order
    → reassemble order sender_did ≡ ok bytes
unfolding reassemble
reassemble-Complete {order = []} sender_did c bound p =
    absurd (omega (arith, length-perm p, c.some_fragment))
reassemble-Complete {delta_id} {bytes} {fs} {order = f ∷ rest} sender_did c bound p =
    let total = length fs in
    let everywhere : all (matches delta_id total) (f ∷ rest) ≡ true =
      sym (all-perm (matches delta_id total) p)
      ∙ InOrder-all-matches delta_id total 0 fs c.in_order in
    let own_id : f.delta_id ≡ delta_id = ground (arith, everywhere) in
    let own_total : f.total_fragments ≡ total = ground (arith, everywhere) in
    let sorted : sort_by_index (f ∷ rest) ≡ fs =
      sym (sort_by_index-perm p (InOrder-Distinct delta_id total 0 fs c.in_order))
      ∙ sort_by_index-InOrder delta_id total 0 fs c.in_order in
    let consistent : all (matches f.delta_id f.total_fragments) (f ∷ rest) ≡ true =
      ap₂ (λ i n. all (matches i n) (f ∷ rest)) own_id own_total ∙ everywhere in
    rw sorted (
      ground (
        arith,
        consistent,
        own_total,
        length-perm p,
        c.some_fragment,
        c.whole,
        InOrder-in_sequence delta_id total 0 fs (omega arith) c.in_order,
      ))

-- A delta of at least one byte, cut for an MTU of at least one into fewer than 2 ^ 32 fragments,
-- is what `reassemble` returns for these fragments in any order.
pub reassemble-fragment :
    (delta_id : DeltaId) (bytes : List ℕ) (mtu : ℕ) (order : List DeltaFragment) (sender_did : Did)
    → 1 ≤ length bytes
    → 1 ≤ mtu
    → length (fragment delta_id bytes mtu) < 2 ^ 32
    → Permᴰ (fragment delta_id bytes mtu) order
    → reassemble order sender_did ≡ ok bytes
reassemble-fragment delta_id bytes mtu order sender_did some_byte some_room bound p =
    reassemble-Complete sender_did (fragment-Complete delta_id bytes mtu some_byte some_room bound)
      bound p
