-- ===== src/Transport/Saturate/Promise.antt =====
-- What Saturate_Mode of tirbase-core/src/transport/saturate.rs promises, without its lease: the time
-- at which it was last activated or renewed, while it lasts.
use tir_base.Prelude.{
  ℕ, ◌≡◌, refl, ap, ◌∙◌, Bool, Option, none, some, List, [], ◌∷◌, arith, ℤ, ◌+ℤ◌, leb_ℤ, i64, leb,
  if◌then◌else◌, is_some,
}
use tir_base.Crdt.Delta.{Did}
use tir_base.Error.{Result, ok, err, is_ok}
use tir_base.Identity.{Crypto}
use tir_base.Auth.Biscuit.{Biscuit}
use tir_base.Transport.Saturate.{
  SaturateState, normal, saturate, SaturateLease, SaturateModeStateMachine, new, activate, renew,
  terminate, tick, activated, on_ok, renew_in, terminate_in, tick_in, expire_lease, is_expired,
  verify_disaster_alert_token, count_valid_distinct_signatures,
}
use tir_base.Transport.Saturate.Lease.{
  is_saturate, opened_at, IsLeased, LeaseDated, Op, op_activate, op_renew, op_terminate, op_tick,
  step, run, step-IsLeased,
}

abbrev pub opened_in : Option SaturateLease → Option ℤ
opened_in none = none
opened_in (some lease) = some (opened_at lease)

abbrev pub renewing : Bool → ℤ → Option ℤ → Option ℤ
renewing accepted now none = none
renewing accepted now (some at) = if accepted then some now else some at

abbrev pub ending : Bool → Option ℤ → Option ℤ
ending enough none = none
ending enough (some at) = if enough then none else some at

abbrev pub expiring : ℤ → ℤ → Option ℤ → Option ℤ
expiring duration now none = none
expiring duration now (some at) = if leb_ℤ (i64 (at +ℤ duration)) now then none else some at

module _ (biscuit : Biscuit) (crypto : Crypto) where
  -- one operation on a machine with the threshold, the key and the duration of `m`
  abbrev pub promise : SaturateModeStateMachine → Op → Option ℤ → Option ℤ
  promise m (op_activate did token now) o =
      if is_ok (verify_disaster_alert_token biscuit m token now) then some now else o
  promise m (op_renew did token now) o =
      renewing (is_ok (verify_disaster_alert_token biscuit m token now)) now o
  promise m (op_terminate signatures message) o =
      ending
        (leb m.termination_threshold_m (count_valid_distinct_signatures crypto signatures message))
        o
  promise m (op_tick now) o = expiring m.lease_duration_secs now o

  abbrev pub promises : SaturateModeStateMachine → List Op → Option ℤ → Option ℤ
  promises m [] o = o
  promises m (op ∷ ops) o = promises m ops (promise m op o)

  activate-promise :
      (r : Result (Unit {0})) (did : Did) (now : ℤ) (m : SaturateModeStateMachine)
      → opened_in (on_ok biscuit r (ok tt, activated biscuit did now m) m).1.lease
        ≡ (if is_ok r then some now else opened_in m.lease)
  activate-promise (ok u) did now m = refl
  activate-promise (err e) did now m = refl

  renew-promise :
      (s : SaturateState) (l : Option SaturateLease) (r : Result (Unit {0})) (did : Did)
      (token : List ℕ) (now : ℤ) (m : SaturateModeStateMachine)
      → m.lease ≡ l
      → is_some l ≡ is_saturate s
      → verify_disaster_alert_token biscuit m token now ≡ r
      → opened_in (renew_in biscuit s did token now m).1.lease
        ≡ renewing (is_ok r) now (opened_in m.lease)
  unfolding renew_in
  renew-promise normal none r did token now m e h v = rw e refl
  renew-promise normal (some lease) r did token now m e h v = cc
  renew-promise saturate none r did token now m e h v = cc
  renew-promise saturate (some lease) (ok u) did token now m e h v = rw (v, e) refl
  renew-promise saturate (some lease) (err x) did token now m e h v = rw (v, e) refl

  terminate-promise :
      (s : SaturateState) (l : Option SaturateLease) (signatures : List (Did × List ℕ))
      (message : List ℕ) (m : SaturateModeStateMachine)
      → m.lease ≡ l
      → is_some l ≡ is_saturate s
      → opened_in (terminate_in crypto s signatures message m).1.lease
        ≡ ending
            (leb m.termination_threshold_m
              (count_valid_distinct_signatures crypto signatures message))
            (opened_in m.lease)
  unfolding terminate_in
  terminate-promise normal none signatures message m e h = rw e refl
  terminate-promise normal (some lease) signatures message m e h = cc
  terminate-promise saturate none signatures message m e h = cc
  terminate-promise saturate (some lease) signatures message m e h = rw e (ground (arith, e))

  tick-promise :
      (s : SaturateState) (l : Option SaturateLease) (now : ℤ) (m : SaturateModeStateMachine)
      → m.lease ≡ l
      → is_some l ≡ is_saturate s
      → LeaseDated l m.lease_duration_secs
      → opened_in (tick_in s now m).lease ≡ expiring m.lease_duration_secs now (opened_in m.lease)
  unfolding tick_in expire_lease is_expired
  tick-promise normal none now m e h d = rw e refl
  tick-promise normal (some lease) now m e h d = cc
  tick-promise saturate none now m e h d = cc
  tick-promise saturate (some lease) now m e h d = rw (e, d) (ground (arith, e))

  step-promise :
      (op : Op) (m : SaturateModeStateMachine)
      → IsLeased m
      → opened_in (step biscuit crypto op m).lease ≡ promise m op (opened_in m.lease)
  unfolding step activate renew terminate tick
  step-promise (op_activate did token now) m h =
      activate-promise (verify_disaster_alert_token biscuit m token now) did now m
  step-promise (op_renew did token now) m h =
      renew-promise m.state m.lease (verify_disaster_alert_token biscuit m token now) did token now
        m refl h.leased refl
  step-promise (op_terminate signatures message) m h =
      terminate-promise m.state m.lease signatures message m refl h.leased
  step-promise (op_tick now) m h = tick-promise m.state m.lease now m refl h.leased h.dated

  -- the configuration of a machine
  record Same (m n : SaturateModeStateMachine) : Type 0 where
    threshold : m.termination_threshold_m ≡ n.termination_threshold_m
    key : m.root_ca_public_key ≡ n.root_ca_public_key
    duration : m.lease_duration_secs ≡ n.lease_duration_secs

  step-Same :
      (op : Op) (m n : SaturateModeStateMachine) → Same m n → Same (step biscuit crypto op m) n
  unfolding step activate renew terminate tick renew_in terminate_in tick_in expire_lease
  step-Same (op_activate did token now) m n s = record {
    threshold = ground (arith, s.threshold);
    key = ground (arith, s.key);
    duration = ground (arith, s.duration);
  }
  step-Same (op_renew did token now) m n s = record {
    threshold = ground (arith, s.threshold);
    key = ground (arith, s.key);
    duration = ground (arith, s.duration);
  }
  step-Same (op_terminate signatures message) m n s = record {
    threshold = ground (arith, s.threshold);
    key = ground (arith, s.key);
    duration = ground (arith, s.duration);
  }
  step-Same (op_tick now) m n s = record {
    threshold = ground (arith, s.threshold);
    key = ground (arith, s.key);
    duration = ground (arith, s.duration);
  }

  promise-Same :
      (op : Op) (m n : SaturateModeStateMachine) (o : Option ℤ)
      → Same m n
      → promise m op o ≡ promise n op o
  unfolding verify_disaster_alert_token
  promise-Same (op_activate did token now) m n o s = rw s.key refl
  promise-Same (op_renew did token now) m n o s = rw s.key refl
  promise-Same (op_terminate signatures message) m n o s = rw s.threshold refl
  promise-Same (op_tick now) m n o s = rw s.duration refl

  run-Promised :
      (ops : List Op) (m n : SaturateModeStateMachine)
      → IsLeased m
      → Same m n
      → IsLeased (run biscuit crypto ops m)
        × (opened_in (run biscuit crypto ops m).lease ≡ promises n ops (opened_in m.lease))
  unfolding run
  run-Promised [] m n h s = (h, refl)
  run-Promised (op ∷ ops) m n h s =
      let rest =
        run-Promised ops (step biscuit crypto op m) n (step-IsLeased biscuit crypto op m h)
          (step-Same op m n s) in
      let once = step-promise op m h ∙ promise-Same op m n (opened_in m.lease) s in
      (rest.0, rest.1 ∙ ap (promises n ops) once)

  -- After any operations on a new machine, whatever the libraries answer: there is a lease exactly
  -- in SATURATE, it ends the configured duration (in i64 arithmetic) after its last renewal or its
  -- activation, and that time is the one that the promise gives: an accepted activation sets it, an
  -- accepted renewal moves it while there is one, a termination with enough signatures and a tick
  -- at its end clear it, and nothing else changes it.
  pub run-promises :
      (threshold key : ℕ) (duration : ℤ) (ops : List Op)
      → let m = run biscuit crypto ops (new threshold key duration) in
        IsLeased m × (opened_in m.lease ≡ promises (new threshold key duration) ops none)
  unfolding new
  run-promises threshold key duration ops =
      run-Promised ops (new threshold key duration) (new threshold key duration)
        (record { leased = refl; dated = tt })
        (record { threshold = refl; key = refl; duration = refl })
