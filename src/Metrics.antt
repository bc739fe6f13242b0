-- ===== src/Metrics.antt =====
-- noray/src/metrics/metrics.mjs: the answers of the metrics' HTTP server. That the server is started
-- by a hook and closed at 'close' is in Lifecycle.
use bevy_noray.Base.{ℕ, Option, none, some, Text, text_beq, codes, if◌then◌else◌}

pub record Response : Type 0 where
  pub status_code : ℕ
  pub body : Option Text

-- `metrics` is what the registry of the metrics library writes.
unfoldable pub respond : Text → Text → Response
respond metrics url =
    if text_beq url (codes "/metrics")
    then record { status_code = 200; body = some metrics }
    else record { status_code = 404; body = none }
