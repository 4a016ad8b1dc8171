-- ===== src/Lifecycle/Metrics.antt =====
-- `GatewayMetrics` and `AdmissionLimits` of pcc_gateway/lifecycle.py.
use pcc_gateway.Prelude.{
  ℕ, Bool, false, not, ◌&&◌, Option, none, some, ◌==◌, if◌then◌else◌, ℤ, pos, negsuc, ◌+ℤ◌, Result,
  ok, err,
}
use pcc_gateway.Lifecycle.Generation.{LifecycleError, negative_limit, unknown_label}

-- NAMES
pub data Name : Type 0 where
  connections_accepted connections_active connections_rejected tls_handshakes_started : Name
  tls_handshakes_completed tls_handshakes_failed tls_close_notify_completed : Name
  tls_close_notify_failed tls_generation_reloads reload_requested requests_started : Name
  requests_active requests_queued requests_rejected parser_errors buffered_bytes : Name
  backpressure_parks upstream_active upstream_retries upstream_cancelled dns_queries : Name
  dns_failures dns_cache_hits vthread_pins drain_forced : Name

-- The place of a name in NAMES.
abbrev pub index : Name → ℕ
index connections_accepted = 0
index connections_active = 1
index connections_rejected = 2
index tls_handshakes_started = 3
index tls_handshakes_completed = 4
index tls_handshakes_failed = 5
index tls_close_notify_completed = 6
index tls_close_notify_failed = 7
index tls_generation_reloads = 8
index reload_requested = 9
index requests_started = 10
index requests_active = 11
index requests_queued = 12
index requests_rejected = 13
index parser_errors = 14
index buffered_bytes = 15
index backpressure_parks = 16
index upstream_active = 17
index upstream_retries = 18
index upstream_cancelled = 19
index dns_queries = 20
index dns_failures = 21
index dns_cache_hits = 22
index vthread_pins = 23
index drain_forced = 24

-- The dictionary `_values`, whose keys are the names.
abbrev pub Metrics : Type 0
Metrics = Name → ℤ

unfoldable pub zero_metrics : Metrics
zero_metrics name = pos 0

abbrev pub put : Name → ℤ → Metrics → Metrics
put name value m other = if index name == index other then value else m other

-- `_add_unlocked` of one of the names: the new values; the method returns the new value of the name.
abbrev pub add_known : Name → ℤ → Metrics → Metrics
add_known name amount m = put name (m name +ℤ amount) m

-- `add`: a label that is none of the names is refused.
unfoldable pub add : Option Name → ℤ → Metrics → Result LifecycleError (Metrics × ℤ)
add none amount m = err unknown_label
add (some name) amount m = ok (add_known name amount m, m name +ℤ amount)

abbrev pub is_zero : ℤ → Bool
is_zero (pos n) = n == 0
is_zero (negsuc n) = false

-- `_drain_active_unlocked`: the number of active connections and requests, and the new values.
unfoldable pub drain_active : Bool → Metrics → ℤ × Metrics
drain_active force m =
    let active = m connections_active +ℤ m requests_active in
    (
      active,
      if not (is_zero active) && force
          then put requests_active (pos 0)
              (put connections_active (pos 0) (add_known drain_forced active m))
          else m,
    )

pub record AdmissionLimits : Type 0 where
  pub max_connections : ℕ
  pub max_requests : ℕ
  pub max_queued_requests : ℕ
  pub max_upstream_active : ℕ
  pub max_buffered_bytes : ℕ

unfoldable pub new_limits : ℤ → ℤ → ℤ → ℤ → ℤ → Result LifecycleError AdmissionLimits
new_limits (pos connections) (pos requests) (pos queued) (pos upstream) (pos buffered) =
    ok (record {
      max_connections = connections;
      max_requests = requests;
      max_queued_requests = queued;
      max_upstream_active = upstream;
      max_buffered_bytes = buffered;
    })
new_limits _ _ _ _ _ = err negative_limit
