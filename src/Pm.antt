-- ===== src/Pm.antt =====
-- lib/pm_manager.c: whether the device is in its low-power state.
use zbeam.Base.{Bool, true, false, if◌then◌else◌}

-- The static variable.
pub record Pm : Type 0 where
  pub is_suspended : Bool

unfoldable pub pm_init : Pm → Pm
pm_init p = record p { is_suspended = false }

unfoldable pub pm_suspend : Pm → Pm
pm_suspend p = if p.is_suspended then p else record p { is_suspended = true }

unfoldable pub pm_resume : Pm → Pm
pm_resume p = if p.is_suspended then record p { is_suspended = false } else p

unfoldable pub pm_is_suspended : Pm → Bool
pm_is_suspended p = p.is_suspended
