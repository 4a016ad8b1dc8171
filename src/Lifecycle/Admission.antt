-- ===== src/Lifecycle/Admission.antt =====
-- The admission methods of `GatewayLifecycle` of pcc_gateway/lifecycle.py. Each holds the owner lock
-- from its check to its update, so each is one step.
use pcc_gateway.Prelude.{
  ℕ, ◌+◌, ◌-◌, Bool, true, false, not, ◌||◌, leb, ◌==◌, if◌then◌else◌, ℤ, pos, negsuc, ◌+ℤ◌, leb_ℤ,
  ltb_ℤ, neg, is_negative, ok, err,
}
use pcc_gateway.Lifecycle.Generation.{
  connection_underflow, request_underflow, queue_underflow, upstream_underflow,
  reservation_negative, reservation_range,
}
use pcc_gateway.Lifecycle.Metrics.{
  Name, connections_accepted, connections_active, connections_rejected, requests_started,
  requests_active, requests_queued, requests_rejected, buffered_bytes, upstream_active, add_known,
}
use pcc_gateway.Lifecycle.State.{Lifecycle, Outcome, is_running}

abbrev pub count : Name → ℤ → Lifecycle → Lifecycle
count name amount l = record l { metrics = add_known name amount l.metrics }

abbrev pub limit_reached : ℕ → Name → Lifecycle → Bool
limit_reached limit name l = leb_ℤ (pos limit) (l.metrics name)

unfoldable pub admit_connection : Lifecycle → Lifecycle × Bool
admit_connection l =
    if not (is_running l.state)
    then (count connections_rejected (pos 1) l, false)
    else if limit_reached l.limits.max_connections connections_active l
    then (count connections_rejected (pos 1) l, false)
    else (count connections_active (pos 1) (count connections_accepted (pos 1) l), true)

unfoldable pub release_connection : Lifecycle → Outcome (Unit {0})
release_connection l =
    if leb_ℤ (l.metrics connections_active) (pos 0)
    then (l, err connection_underflow)
    else (count connections_active (negsuc 0) l, ok tt)

unfoldable pub admit_request : Lifecycle → Lifecycle × Bool
admit_request l =
    if not (is_running l.state)
    then (count requests_rejected (pos 1) l, false)
    else if limit_reached l.limits.max_requests requests_active l
    then (count requests_rejected (pos 1) l, false)
    else (count requests_active (pos 1) (count requests_started (pos 1) l), true)

unfoldable pub release_request : Lifecycle → Outcome (Unit {0})
release_request l =
    if leb_ℤ (l.metrics requests_active) (pos 0)
    then (l, err request_underflow)
    else (count requests_active (negsuc 0) l, ok tt)

unfoldable pub queue_request : Lifecycle → Lifecycle × Bool
queue_request l =
    if leb l.limits.max_queued_requests l.queued_requests
    then (count requests_rejected (pos 1) l, false)
    else (
      count requests_queued (pos 1) (record l { queued_requests = l.queued_requests + 1 }),
      true,
    )

unfoldable pub release_queued_request : Lifecycle → Outcome (Unit {0})
release_queued_request l = if l.queued_requests == 0 then (l, err queue_underflow) else (
  count requests_queued (negsuc 0) (record l { queued_requests = l.queued_requests - 1 }),
  ok tt,
)

unfoldable pub admit_upstream : Lifecycle → Lifecycle × Bool
admit_upstream l =
    if limit_reached l.limits.max_upstream_active upstream_active l
    then (l, false)
    else (count upstream_active (pos 1) l, true)

unfoldable pub release_upstream : Lifecycle → Outcome (Unit {0})
release_upstream l =
    if leb_ℤ (l.metrics upstream_active) (pos 0)
    then (l, err upstream_underflow)
    else (count upstream_active (negsuc 0) l, ok tt)

unfoldable pub reserve_buffered : ℤ → Lifecycle → Outcome Bool
reserve_buffered amount l =
    if is_negative amount
    then (l, err reservation_negative)
    else if ltb_ℤ (pos l.limits.max_buffered_bytes) (l.metrics buffered_bytes +ℤ amount)
    then (l, ok false)
    else (count buffered_bytes amount l, ok true)

unfoldable pub release_buffered : ℤ → Lifecycle → Outcome (Unit {0})
release_buffered amount l =
    if is_negative amount || ltb_ℤ (l.metrics buffered_bytes) amount
    then (l, err reservation_range)
    else (count buffered_bytes (neg amount) l, ok tt)
