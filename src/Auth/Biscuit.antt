-- ===== src/Auth/Biscuit.antt =====
-- What tirbase-core/src/auth/biscuit.rs gets from the biscuit-auth library, as an interface: the
-- verdicts on a token's bytes under a root CA key at a time in seconds.
use tir_base.Prelude.{ℕ, String, Bool, List, ℤ}
use tir_base.Crdt.Delta.{Did}
use tir_base.Error.{TirBaseError, Result}

pub record BiscuitClaims : Type 0 where
  pub did : Did
  pub role : String
  pub issued_at : ℤ
  pub expires_at : ℤ

-- the result of verify_token_distinguish_expiry
pub data Presented : Type 0 where
  valid : BiscuitClaims → Presented
  token_expired : Presented
  other_failure : TirBaseError → Presented

pub record Biscuit : Type 0 where
  pub verify_token : List ℕ → ℕ → ℤ → Result BiscuitClaims
  pub verify_token_distinguish_expiry : List ℕ → ℕ → ℤ → Presented
  pub verify_and_check_caveat : List ℕ → String → ℕ → ℤ → Result Bool
