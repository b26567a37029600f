-- ===== src/Transport/Fragment/Delivery.antt =====
-- A delta sent through the reassembly buffer: its fragments arrive one by one, in any order.
use mathlib.Core.List.{Permᴰ}
use mathlib.Core.Path.{ap₂, subst}
use tir_base.Prelude.{
  ℕ, ◌≤◌, ◌≡◌, refl, sym, ap, ◌∙◌, true, false, ◌||◌, inl, inr, Option, none, some, List, [], ◌∷◌,
  map, arith, length, All, all, is_some, lookup, contains, Distinct, nat_eq,
}
use tir_base.Crdt.Delta.{DeltaId, Did}
use tir_base.Error.{Result, ok, err}
use tir_base.Transport.Fragment.{
  DeltaFragment, payloads, ReassemblyBuffer, unwrapped, add_fragment, fragment,
}
use tir_base.Transport.Fragment.Sorting.{
  index, Distinct-perm, contains-perm, InOrder-Distinct, length-perm,
}
use tir_base.Transport.Fragment.Seen.{
  seen, length-seen, seen-nil, Among, Among→Known, set-seen, all-seen, unwrapped-seen, all_of_Among,
  all-eq-false,
}
use tir_base.Transport.Fragment.Whole.{Complete, fragment-Complete}
use tir_base.Transport.Fragment.Outcomes.{before, last_fragment, earlier_fragment}
use tir_base.Transport.Fragment.Inv.{Inv, held, acceptable}
use tir_base.Transport.Fragment.Inv.Steps.{stored, add_fragment-Inv}

-- the deltas that are completed while fragments arrive one after another
abbrev with_completed : Result (Option (List ℕ)) → List (List ℕ) → List (List ℕ)
with_completed (ok (some bytes)) done = bytes ∷ done
with_completed (ok none) done = done
with_completed (err e) done = done

unfoldable pub deliver :
    List DeltaFragment → Did → ReassemblyBuffer → ReassemblyBuffer × List (List ℕ)
deliver [] sender_did buffer = (buffer, [])
deliver (f ∷ fs) sender_did buffer =
    let step = add_fragment buffer f sender_did in
    let rest = deliver fs sender_did step.0 in (rest.0, with_completed step.1 rest.1)

module _ (delta_id : DeltaId) (fs : List DeltaFragment) (sender_did : Did) where
  -- The fragments with the indices `ks` have arrived, the `todo` are to come.
  record Midway (ks : List ℕ) (todo : List DeltaFragment) (buffer : ReassemblyBuffer) : Type 0 where
    valid : Inv buffer
    slots : held (length fs) (lookup delta_id buffer.pending) ≡ seen ks fs
    among : All (Among fs) todo
    distinct : Distinct (map index todo)
    ahead : All (λ g. contains ks (index g) ≡ false) todo
    covered :
        (g : DeltaFragment)
        → Among fs g
        → (contains ks (index g) || contains (map index todo) (index g)) ≡ true

  ahead_step :
      (k : ℕ) (ks : List ℕ) (todo : List DeltaFragment)
      → contains (map index todo) k ≡ false
      → All (λ g. contains ks (index g) ≡ false) todo
      → All (λ g. contains (k ∷ ks) (index g) ≡ false) todo
  ahead_step k ks [] new h = tt
  ahead_step k ks (g ∷ todo) new h =
      (ground (arith, h.0, new), ahead_step k ks todo (ground (arith, new)) h.1)

  module _ {bytes : List ℕ} (c : Complete delta_id bytes fs) (few : length fs ≤ 4096) where
    -- what a call sees and does, when `g` comes next
    record Next (ks : List ℕ) (g : DeltaFragment) (buffer : ReassemblyBuffer) : Type 0 where
      own : g.delta_id ≡ delta_id
      accepted : acceptable g ≡ true
      length_before : length (before buffer g) ≡ g.total_fragments
      after : stored g (before buffer g) ≡ seen (index g ∷ ks) fs

    Midway-Next :
        {ks : List ℕ} {g : DeltaFragment} {todo : List DeltaFragment} {buffer : ReassemblyBuffer}
        → Midway ks (g ∷ todo) buffer
        → Next ks g buffer
    Midway-Next {ks} {g} {buffer = buffer} m =
        let k = Among→Known delta_id (length fs) 0 fs g c.in_order m.among.0 in
        let there : before buffer g ≡ seen ks fs =
          ap₂ (λ n i. held n (lookup i buffer.pending)) k.total_known k.own ∙ m.slots in
        record {
          own = k.own;
          accepted = ground (arith, k.total_known, k.below, few);
          length_before = rw there (length-seen ks fs ∙ sym k.total_known);
          after = rw there (
              set-seen delta_id (length fs) 0 (index g) ks fs g c.in_order m.among.0 (omega arith));
        }

    deliver_last :
        (ks : List ℕ) (g : DeltaFragment) (buffer : ReassemblyBuffer)
        → Midway ks (g ∷ []) buffer
        → (deliver (g ∷ []) sender_did buffer).1 ≡ bytes ∷ []
    unfolding deliver
    deliver_last ks g buffer m =
        let next = Midway-Next m in
        let every : all (λ f. contains (index g ∷ ks) (index f)) fs ≡ true =
          all_of_Among (λ f. contains (index g ∷ ks) (index f)) fs
            (λ f among. ground (arith, m.covered f among)) in
        let full : all is_some (stored g (before buffer g)) ≡ true =
          rw next.after (all-seen (index g ∷ ks) fs ∙ every) in
        let done =
          last_fragment buffer g sender_did m.valid next.accepted next.length_before full in
        rw done.result (
          ap (λ s. payloads (unwrapped s) ∷ []) next.after
          ∙ ap (λ l. payloads l ∷ []) (unwrapped-seen (index g ∷ ks) fs every)
          ∙ ap (λ b. b ∷ []) c.whole)

    step-Midway :
        (ks : List ℕ) (g g₂ : DeltaFragment) (todo : List DeltaFragment) (buffer : ReassemblyBuffer)
        → Midway ks (g ∷ g₂ ∷ todo) buffer
        → ((add_fragment buffer g sender_did).1 ≡ ok none)
          × Midway (index g ∷ ks) (g₂ ∷ todo) (add_fragment buffer g sender_did).0
    step-Midway ks g g₂ todo buffer m =
        let next = Midway-Next m in
        let still_missing = ahead_step (index g) ks (g₂ ∷ todo) m.distinct.0 m.ahead.1 in
        let missing : all (λ f. contains (index g ∷ ks) (index f)) fs ≡ false =
          all-eq-false (λ f. contains (index g ∷ ks) (index f)) fs g₂ m.among.1.0 still_missing.0 in
        let part : all is_some (stored g (before buffer g)) ≡ false =
          rw next.after (all-seen (index g ∷ ks) fs ∙ missing) in
        let done = earlier_fragment buffer g sender_did next.accepted next.length_before part in
        let entry : lookup delta_id (add_fragment buffer g sender_did).0.pending
            ≡ some (stored g (before buffer g)) =
          rw (← next.own) done.entry_after in
        (
          done.result,
          record {
            valid = add_fragment-Inv buffer g sender_did m.valid;
            slots = ap (held (length fs)) entry ∙ next.after;
            among = m.among.1;
            distinct = m.distinct.1;
            ahead = still_missing;
            covered = λ f among. ground (arith, m.covered f among);
          },
        )

    deliver-Midway :
        (ks : List ℕ) (g : DeltaFragment) (todo : List DeltaFragment) (buffer : ReassemblyBuffer)
        → Midway ks (g ∷ todo) buffer
        → (deliver (g ∷ todo) sender_did buffer).1 ≡ bytes ∷ []
    unfolding deliver
    deliver-Midway ks g [] buffer m = deliver_last ks g buffer m
    deliver-Midway ks g (g₂ ∷ todo) buffer m =
        let (result, rest) = step-Midway ks g g₂ todo buffer m in
        rw result (deliver-Midway (index g ∷ ks) g₂ todo (add_fragment buffer g sender_did).0 rest)

All-perm :
    (P : DeltaFragment → Type 0) {xs ys : List DeltaFragment} → Permᴰ xs ys → All P xs → All P ys
All-perm P Permᴰ.nil h = tt
All-perm P (Permᴰ.cons e p) h = (subst P e h.0, All-perm P p h.1)
All-perm P (Permᴰ.swap d e) h = (subst P e h.1.0, (subst P d h.0, h.1.1))
All-perm P (Permᴰ.trans p q) h = All-perm P q (All-perm P p h)

All-Among :
    (fs gs : List DeltaFragment)
    → ((g : DeltaFragment) → Among gs g → Among fs g)
    → All (Among fs) gs
All-Among fs [] h = tt
All-Among fs (g ∷ gs) h = (h g (inl refl), All-Among fs gs (λ f m. h f (inr m)))

contains-index :
    (fs : List DeltaFragment) (g : DeltaFragment)
    → Among fs g
    → contains (map index fs) (index g) ≡ true
contains-index [] g m = absurd m
contains-index (f ∷ fs) g (inl same) = ground (arith, ap index same)
contains-index (f ∷ fs) g (inr later) = ground (arith, contains-index fs g later)

nothing_arrived : (todo : List DeltaFragment) → All (λ g. contains [] (index g) ≡ false) todo
nothing_arrived [] = tt
nothing_arrived (g ∷ todo) = (refl, nothing_arrived todo)

start-Midway :
    {delta_id : DeltaId} {fs order : List DeltaFragment} {bytes : List ℕ}
    (buffer : ReassemblyBuffer) (sender_did : Did)
    → Complete delta_id bytes fs
    → Permᴰ fs order
    → Inv buffer
    → lookup delta_id buffer.pending ≡ none
    → Midway delta_id fs sender_did [] order buffer
start-Midway {delta_id} {fs} buffer sender_did c p valid new = record {
  valid = valid;
  slots = ap (held (length fs)) new ∙ sym (seen-nil fs);
  among = All-perm (Among fs) p (All-Among fs fs (λ g m. m));
  distinct = Distinct-perm p (InOrder-Distinct delta_id (length fs) 0 fs c.in_order);
  ahead = nothing_arrived _;
  covered = λ g m. sym (contains-perm (index g) p) ∙ contains-index fs g m;
}

deliver_all :
    {delta_id : DeltaId} {fs : List DeltaFragment} {bytes : List ℕ} (order : List DeltaFragment)
    (buffer : ReassemblyBuffer) (sender_did : Did)
    → Complete delta_id bytes fs
    → length fs ≤ 4096
    → Permᴰ fs order
    → Midway delta_id fs sender_did [] order buffer
    → (deliver order sender_did buffer).1 ≡ bytes ∷ []
deliver_all [] buffer sender_did c few p m = absurd (omega (arith, length-perm p, c.some_fragment))
deliver_all {delta_id} {fs} (g ∷ todo) buffer sender_did c few p m =
    deliver-Midway delta_id fs sender_did c few [] g todo buffer m

-- A delta of at least one byte is cut for an MTU of at least one into at most 4,096 fragments. In
-- any order they are added to a valid buffer that holds nothing of this delta: then exactly one
-- delta is completed, and its bytes are those that were cut, even if the buffer was full.
pub deliver-fragment :
    (delta_id : DeltaId) (bytes : List ℕ) (mtu : ℕ) (order : List DeltaFragment) (sender_did : Did)
    (buffer : ReassemblyBuffer)
    → 1 ≤ length bytes
    → 1 ≤ mtu
    → length (fragment delta_id bytes mtu) ≤ 4096
    → Permᴰ (fragment delta_id bytes mtu) order
    → Inv buffer
    → lookup delta_id buffer.pending ≡ none
    → (deliver order sender_did buffer).1 ≡ bytes ∷ []
deliver-fragment delta_id bytes mtu order sender_did buffer some_byte some_room few p valid new =
    let c = fragment-Complete delta_id bytes mtu some_byte some_room (omega arith) in
    deliver_all order buffer sender_did c few p (start-Midway buffer sender_did c p valid new)
