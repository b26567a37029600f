-- ===== src/Crdt/Verify.antt =====
-- tirbase-core/src/crdt/verify.rs: which keys and list positions an incoming document conflicts
-- in, and how the merged document is read back and overridden where the Lamport rule says that
-- the incoming operation wins. The log lines are left out. The order of the root keys stands for
-- the order in which the conflicting keys are sorted.
pub mod Override
pub mod Zones
pub mod Examples
use Prim.Native.Nat.{bit_or}
use tir_base.Prelude.{
  ℕ, suc, ◌+◌, ◌*◌, ◌/◌, ◌%◌, ◌^◌, ◌≡◌, String, Bool, true, false, not, ◌&&◌, ◌||◌, Option, none,
  some, List, [], ◌∷◌, ◌++◌, if◌then◌else◌, eqb, ltb, leb, ◌==◌, string_eq, length, str_leb,
}
use tir_base.Crdt.Automerge.{Automerge, Value, scalar, list_object, other_object, Op, Change}

abbrev pub ElementId : Type 0
ElementId = ℕ × List ℕ

abbrev pub same_bytes : List ℕ → List ℕ → Bool
same_bytes [] [] = true
same_bytes [] (b ∷ bs) = false
same_bytes (a ∷ more) [] = false
same_bytes (a ∷ more) (b ∷ bs) = eqb a b && same_bytes more bs

abbrev pub same_element : ElementId → ElementId → Bool
same_element (n, a) (m, b) = eqb n m && same_bytes a b

abbrev pub same_predecessor : Option ElementId → Option ElementId → Bool
same_predecessor none none = true
same_predecessor none (some e) = false
same_predecessor (some e) none = false
same_predecessor (some e) (some f) = same_element e f

pub record VerificationReport : Type 0 where
  pub lww_checked : ℕ
  pub rga_checked : ℕ
  pub divergences : ℕ
  pub overrides_applied : ℕ
  pub overrides_failed : ℕ
  pub indeterminate : ℕ

abbrev pub no_report : VerificationReport
no_report = record {
  lww_checked = 0;
  rga_checked = 0;
  divergences = 0;
  overrides_applied = 0;
  overrides_failed = 0;
  indeterminate = 0;
}

-- `leb128_u64`: the number and the bytes behind it; at most ten bytes are read
unfoldable pub leb128_u64 : (result shift : ℕ) → List ℕ → Option (ℕ × List ℕ)
leb128_u64 result shift [] = none
leb128_u64 result shift (byte ∷ bytes) =
    let value = bit_or result (byte % 128 * 2 ^ shift % 2 ^ 64) in
    let rest = leb128_u64 value (shift + 7) bytes in
    if ltb byte 128 then some (value, bytes) else if leb 64 (shift + 7) then none else rest

-- `b.get(pos..pos + n)`
abbrev pub split_at : ℕ → List ℕ → Option (List ℕ × List ℕ)
split_at (suc n) [] = none
split_at (suc n) (b ∷ bytes) = elim (split_at n bytes) [
  | none ↦ none
  | some (front, back) ↦ some (b ∷ front, back)
]
split_at _ bytes = some ([], bytes)

infixl 5 ◌>>=◌
abbrev pub ◌>>=◌ {ℓ κ} : {A : Type ℓ} {B : Type κ} → Option A → (A → Option B) → Option B
none >>= f = none
some a >>= f = f a

-- `exid_parts`
unfoldable pub element_of_bytes : List ℕ → Option ElementId
element_of_bytes [] = none
element_of_bytes (tag ∷ []) = none
element_of_bytes (tag ∷ b ∷ bytes) =
    if not (eqb (tag % 16) 0) then none else if eqb (tag / 16) 0 then none else do
      (actor_len, after_len) ← leb128_u64 0 0 (b ∷ bytes)
      (actor, after_actor) ← split_at actor_len after_len
      (hint, after_hint) ← leb128_u64 0 0 after_actor
      (counter, rest) ← leb128_u64 0 0 after_hint
      some (counter, actor)
