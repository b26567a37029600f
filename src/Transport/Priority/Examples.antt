-- ===== src/Transport/Priority/Examples.antt =====
-- Tests and instances for the priority classes.
use tir_base.Prelude.{◌≡◌, [], ◌∷◌}
use tir_base.Transport.Priority.{
  link_state, safety_alert, classify_with_flags, highest, classify_with_flags-eq-highest,
}

classify_with_flags-eq-highest_example :
    classify_with_flags (link_state ∷ safety_alert ∷ []) ≡ highest (link_state ∷ safety_alert ∷ [])
classify_with_flags-eq-highest_example =
    classify_with_flags-eq-highest (link_state ∷ safety_alert ∷ [])
