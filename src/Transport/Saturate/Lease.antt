-- ===== src/Transport/Saturate/Lease.antt =====
-- The lease of Saturate_Mode over every sequence of operations.
use tir_base.Prelude.{
  ℕ, ◌≡◌, refl, Bool, true, false, ◌&&◌, Option, none, some, List, [], ◌∷◌, arith, ℤ, ◌+ℤ◌, ◌<ℤ◌,
  i64, is_some,
}
use tir_base.Crdt.Delta.{Did}
use tir_base.Error.{Result, ok, err, is_ok}
use tir_base.Identity.{Crypto}
use tir_base.Auth.Biscuit.{Biscuit}
use tir_base.Transport.Saturate.{
  SaturateState, normal, saturate, SaturateLease, SaturateModeStateMachine, activate, renew,
  terminate, tick, activated, on_ok, extended, renew_in, verify_disaster_alert_token,
}

abbrev pub is_saturate : SaturateState → Bool
is_saturate normal = false
is_saturate saturate = true

-- the last renewal, or the activation
abbrev pub renewed_or : ℤ → Option ℤ → ℤ
renewed_or activated_at none = activated_at
renewed_or activated_at (some at) = at

abbrev pub opened_at : SaturateLease → ℤ
opened_at lease = renewed_or lease.activated_at lease.last_renewed_at

-- There is a lease exactly in SATURATE, and it ends the configured duration after it was last
-- renewed or activated.
abbrev pub LeaseDated : Option SaturateLease → ℤ → Type 0
LeaseDated none duration = Unit
LeaseDated (some lease) duration = lease.expires_at ≡ i64 (opened_at lease +ℤ duration)

pub record IsLeased (m : SaturateModeStateMachine) : Type 0 where
  pub leased : is_some m.lease ≡ is_saturate m.state
  pub dated : LeaseDated m.lease m.lease_duration_secs

abbrev pub opened_in : Option SaturateLease → Option ℤ
opened_in none = none
opened_in (some lease) = some (opened_at lease)

pub data Op : Type 0 where
  op_activate op_renew : Did → List ℕ → ℤ → Op
  op_terminate : List (Did × List ℕ) → List ℕ → Op
  op_tick : ℤ → Op

activated-IsLeased :
    (biscuit : Biscuit) (r : Result (Unit {0})) (did : Did) (now : ℤ) (m : SaturateModeStateMachine)
    → IsLeased m
    → IsLeased (on_ok biscuit r (ok tt, activated biscuit did now m) m).1
activated-IsLeased biscuit (ok u) did now m h = record { leased = refl; dated = refl }
activated-IsLeased biscuit (err e) did now m h = h

extended-IsLeased :
    (biscuit : Biscuit) (l : Option SaturateLease) (now : ℤ) (m : SaturateModeStateMachine)
    → m.state ≡ saturate
    → IsLeased m
    → IsLeased (extended biscuit l now m).1
extended-IsLeased biscuit none now m e h = h
extended-IsLeased biscuit (some lease) now m e h = record {
  leased = ground (arith, e);
  dated = refl;
}

renewed-IsLeased :
    (biscuit : Biscuit) (r : Result (Unit {0})) (now : ℤ) (m : SaturateModeStateMachine)
    → m.state ≡ saturate
    → IsLeased m
    → IsLeased (on_ok biscuit r (extended biscuit m.lease now m) m).1
renewed-IsLeased biscuit (ok u) now m e h = extended-IsLeased biscuit m.lease now m e h
renewed-IsLeased biscuit (err e') now m e h = h

renew_in-IsLeased :
    (biscuit : Biscuit) (s : SaturateState) (did : Did) (token : List ℕ) (now : ℤ)
    (m : SaturateModeStateMachine)
    → m.state ≡ s
    → IsLeased m
    → IsLeased (renew_in biscuit s did token now m).1
unfolding renew_in
renew_in-IsLeased biscuit normal did token now m e h = h
renew_in-IsLeased biscuit saturate did token now m e h =
    renewed-IsLeased biscuit (verify_disaster_alert_token biscuit m token now) now m e h

module _ (biscuit : Biscuit) (crypto : Crypto) where
  unfoldable pub step : Op → SaturateModeStateMachine → SaturateModeStateMachine
  step (op_activate did token now) m = (activate biscuit did token now m).1
  step (op_renew did token now) m = (renew biscuit did token now m).1
  step (op_terminate signatures message) m = (terminate crypto signatures message m).1
  step (op_tick now) m = tick now m

  unfoldable pub run : List Op → SaturateModeStateMachine → SaturateModeStateMachine
  run [] m = m
  run (op ∷ ops) m = run ops (step op m)

  pub step-IsLeased : (op : Op) (m : SaturateModeStateMachine) → IsLeased m → IsLeased (step op m)
  unfolding step activate renew terminate tick
  step-IsLeased (op_activate did token now) m h =
      activated-IsLeased biscuit (verify_disaster_alert_token biscuit m token now) did now m h
  step-IsLeased (op_renew did token now) m h =
      renew_in-IsLeased biscuit m.state did token now m refl h
  step-IsLeased (op_terminate signatures message) m h = ground arith
  step-IsLeased (op_tick now) m h = ground arith

  steps-IsLeased :
      (ops : List Op) (m : SaturateModeStateMachine) → IsLeased m → IsLeased (run ops m)
  unfolding run
  steps-IsLeased [] m h = h
  steps-IsLeased (op ∷ ops) m h = steps-IsLeased ops (step op m) (step-IsLeased op m h)

-- A tick leaves no lease that has expired: a lease that is there afterwards ends later.
pub tick_live :
    (now : ℤ) (m : SaturateModeStateMachine) (lease : SaturateLease)
    → IsLeased m
    → (tick now m).lease ≡ some lease
    → now <ℤ lease.expires_at
unfolding tick
tick_live now m lease h e = ground arith

renew_in-ok :
    (biscuit : Biscuit) (s : SaturateState) (l : Option SaturateLease) (did : Did) (token : List ℕ)
    (now : ℤ) (m : SaturateModeStateMachine)
    → m.lease ≡ l
    → is_some l ≡ is_saturate s
    → is_ok (renew_in biscuit s did token now m).0
      ≡ (is_saturate s && is_ok (verify_disaster_alert_token biscuit m token now))
unfolding renew_in
renew_in-ok biscuit normal l did token now m e h = refl
renew_in-ok biscuit saturate none did token now m e h = cc
renew_in-ok biscuit saturate (some lease) did token now m e h = ground (arith, e)

-- A renewal of a machine with the invariant succeeds exactly in SATURATE with an accepted token:
-- neither the renewal window of the lease nor its end matters.
pub renew-ok :
    (biscuit : Biscuit) (did : Did) (token : List ℕ) (now : ℤ) (m : SaturateModeStateMachine)
    → IsLeased m
    → is_ok (renew biscuit did token now m).0
      ≡ (is_saturate m.state && is_ok (verify_disaster_alert_token biscuit m token now))
unfolding renew
renew-ok biscuit did token now m h =
    renew_in-ok biscuit m.state m.lease did token now m refl h.leased

-- An operation that fails leaves the machine as it was.
pub failed_keeps :
    (biscuit : Biscuit) (crypto : Crypto) (did : Did) (token : List ℕ) (now : ℤ)
    (signatures : List (Did × List ℕ)) (message : List ℕ) (m : SaturateModeStateMachine)
    → (is_ok (activate biscuit did token now m).0 ≡ false
        → (activate biscuit did token now m).1 ≡ m)
      × (is_ok (renew biscuit did token now m).0 ≡ false → (renew biscuit did token now m).1 ≡ m)
      × (is_ok (terminate crypto signatures message m).0 ≡ false
          → (terminate crypto signatures message m).1 ≡ m)
unfolding activate renew terminate
failed_keeps biscuit crypto did token now signatures message m =
    (λ e. ground (arith, e), λ e. ground (arith, e), λ e. ground (arith, e))
