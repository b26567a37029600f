-- ===== src/Durability/CloudLedger/Examples.antt =====
-- A ledger that receives a delta twice over its connection.
use tir_base.Prelude.{
  ℕ, ◌≡◌, refl, true, false, Option, none, some, List, [], ◌∷◌, pos, ℤ, ◌==◌, nat_eq,
}
use tir_base.Error.{ok}
use tir_base.Crdt.Delta.{DeltaId, Delta}
use tir_base.Crdt.Engine.Examples.{libraries, written}
use tir_base.Durability.CloudLedger.{
  CloudLedger, already_committed, new_in_memory, receive_delta, is_committed, acked, send_delta,
  receive_delta-committed,
}
use tir_base.Examples.{repeat}

abbrev ledger : CloudLedger libraries
ledger = new_in_memory libraries (9 ∷ []) (repeat 32 3) "did:key:zcloud" 7

abbrev from_slice : List ℕ → Option Delta
from_slice [] = none
from_slice (b ∷ bytes) = some written

unreadable : send_delta libraries from_slice (pos 70) ledger 1 [] ≡ (ledger, false)
unfolding send_delta
unreadable = refl

receive_delta-committed_example :
    let done = receive_delta libraries written (pos 70) ledger in
    (acked libraries done.1 ≡ is_committed libraries written.id done.0)
    × ((x : DeltaId)
        → is_committed libraries x ledger ≡ true
        → is_committed libraries x done.0 ≡ true)
    × ((x : DeltaId)
        → (written.id == x) ≡ false
        → is_committed libraries x done.0 ≡ is_committed libraries x ledger)
    × (is_committed libraries written.id ledger ≡ true
        → (later : ℤ)
        → receive_delta libraries written later ledger ≡ (ledger, ok already_committed))
receive_delta-committed_example = receive_delta-committed libraries written (pos 70) ledger
