-- ===== src/Transport/Saturate/Examples.antt =====
-- Tests and instances for Saturate_Mode.
use tir_base.Prelude.{◌≡◌, ◌↔◌, ◌≤◌, refl, true, ◌&&◌, none, some, List, [], ◌∷◌, pos, i64, ◌+ℤ◌}
use tir_base.Crdt.Delta.{Did}
use tir_base.Error.{is_ok}
use tir_base.Examples.{crypto, lenient}
use tir_base.Transport.Saturate.{
  normal, saturate, SaturateModeStateMachine, new, renew, terminate,
  count_valid_distinct_signatures, verify_disaster_alert_token,
}
use tir_base.Transport.Saturate.Lease.{IsLeased, Op, op_activate, op_renew, op_tick, run, renew-ok}
use tir_base.Transport.Saturate.Promise.{opened_in, promises, run-promises}
use tir_base.Transport.Saturate.Threshold.{Signed, count-Signed, terminate_threshold}

abbrev manager : Did
manager = "did:key:z1"

abbrev alarmed : SaturateModeStateMachine
alarmed = record {
  state = saturate;
  lease = some (record {
    activated_at = pos 100;
    expires_at = pos 3700;
    last_renewed_at = none;
    activating_manager_did = manager;
  });
  termination_threshold_m = 1;
  root_ca_public_key = 7;
  lease_duration_secs = pos 3600;
}

abbrev operations : List Op
operations =
    op_activate manager (1 ∷ []) (pos 100)
    ∷ op_renew manager (1 ∷ []) (pos 3000)
    ∷ op_tick (pos 5000)
    ∷ []

-- the renewal keeps Saturate_Mode beyond the first lease
kept : promises lenient crypto (new 2 7 (pos 3600)) operations none ≡ some (pos 3000)
unfolding verify_disaster_alert_token i64 ◌+ℤ◌ new
kept = refl

run-promises_example :
    let m = run lenient crypto operations (new 2 7 (pos 3600)) in
    IsLeased m × (opened_in m.lease ≡ promises lenient crypto (new 2 7 (pos 3600)) operations none)
run-promises_example = run-promises lenient crypto 2 7 (pos 3600) operations

alarmed-IsLeased : IsLeased alarmed
unfolding i64 ◌+ℤ◌
alarmed-IsLeased = record { leased = refl; dated = refl }

-- a renewal long after the end of the lease
renew-ok_example :
    is_ok (renew lenient manager (1 ∷ []) (pos 99999) alarmed).0
    ≡ (true && is_ok (verify_disaster_alert_token lenient alarmed (1 ∷ []) (pos 99999)))
renew-ok_example = renew-ok lenient manager (1 ∷ []) (pos 99999) alarmed alarmed-IsLeased

count-Signed_example :
    (1
      ≤ count_valid_distinct_signatures crypto
          ((manager, 9 ∷ []) ∷ (manager, 9 ∷ []) ∷ [])
          (1 ∷ []))
    ↔ Signed crypto (1 ∷ []) ((manager, 9 ∷ []) ∷ (manager, 9 ∷ []) ∷ []) 1
count-Signed_example = count-Signed crypto (1 ∷ []) ((manager, 9 ∷ []) ∷ (manager, 9 ∷ []) ∷ []) 1

terminate_threshold_example :
    ((is_ok (terminate crypto [] (1 ∷ []) alarmed).0 ≡ true) ↔ Signed crypto (1 ∷ []) [] 1)
    × (is_ok (terminate crypto [] (1 ∷ []) alarmed).0 ≡ true
        → ((terminate crypto [] (1 ∷ []) alarmed).1.state ≡ normal)
          × ((terminate crypto [] (1 ∷ []) alarmed).1.lease ≡ none))
terminate_threshold_example = terminate_threshold crypto (1 ∷ []) [] alarmed refl
