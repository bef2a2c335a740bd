-- ===== src/State.antt =====
-- The remembered settings of the AML005 (src/core/state.c and state.h).
use sweet_dawn.Base.{ℕ, Bool, true, false}

-- `AmlState`; the five values are bytes.
pub record AmlState : Type 0 where
  pub known : Bool
  pub display : ℕ
  pub date : ℕ
  pub time : ℕ
  pub feedback : ℕ
  pub fade : ℕ

-- `state_init`
unfoldable pub state_init : AmlState
state_init = record { known = false; display = 0; date = 0; time = 0; feedback = 0; fade = 0 }

-- `state_update_settings`
unfoldable pub state_update_settings : AmlState → ℕ → ℕ → ℕ → ℕ → ℕ → AmlState
state_update_settings state display date time feedback fade = record {
  known = true;
  display = display;
  date = date;
  time = time;
  feedback = feedback;
  fade = fade;
}
