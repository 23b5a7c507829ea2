-- ===== src/Organizations/Webhooks/Overlap.antt =====
-- Two runs of `retry_pending_webhooks` of organizations/tasks.py before the first one's task.
use govahee.Prelude.{Bool, true, false, not}
use govahee.Organizations.Webhooks.{Outcome, response, http_error, unreachable, uncaught}
use govahee.Organizations.Webhooks.Retries.{is_delivered}

-- an outcome that leaves a delivery failed
abbrev pub fails : Outcome → Bool
fails uncaught = false
fails (response code body) = not (is_delivered (response code body))
fails (http_error code body) = true
fails (unreachable message) = true
