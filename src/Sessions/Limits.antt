-- ===== src/Sessions/Limits.antt =====
-- Bounds of the state of a session (src/sessions/limits.rs).
use rtmpx.Prelude.{ℕ, leb, if◌then◌else◌, Outcome, ok, err}

-- `streams` and `pending_requests` carry the limit.
pub data SessionLimitError : Type 0 where
  streams pending_requests : ℕ → SessionLimitError

pub record SessionLimits : Type 0 where
  pub max_streams : ℕ
  pub max_pending_requests : ℕ

abbrev pub default_limits : SessionLimits
default_limits = record { max_streams = 128; max_pending_requests = 128 }

unfoldable pub check_streams : SessionLimits → ℕ → Outcome SessionLimitError (Unit {0})
check_streams l count = if leb l.max_streams count then err (streams l.max_streams) else ok tt

unfoldable pub check_requests : SessionLimits → ℕ → Outcome SessionLimitError (Unit {0})
check_requests l count =
    if leb l.max_pending_requests count
    then err (pending_requests l.max_pending_requests)
    else ok tt
