-- ===== src/Lifecycle/Orders.antt =====
-- Every order of calls on a `GatewayLifecycle` of pcc_gateway/lifecycle.py, the three locked parts of
-- `publish` and the two of `finish_drain` taken apart, so that other threads' calls come between them.
use pcc_gateway.Prelude.{
  ℕ, ◌≡◌, ◌∙◌, refl, Bool, not, ◌&&◌, List, Text, ℤ, ◌+ℤ◌, Result, Result-cases, arith, inl, inr,
  Bool-cases,
}
use pcc_gateway.Lifecycle.Generation.{
  Ended, Provider, LifecycleError, retain, release, retire, new_generation,
}
use pcc_gateway.Lifecycle.Metrics.{
  Metrics, zero_metrics, AdmissionLimits, Name, connections_active, connections_accepted,
  connections_rejected, requests_active, requests_started, requests_rejected, requests_queued,
  upstream_active, buffered_bytes, drain_active, add_known,
}
use pcc_gateway.Lifecycle.State
use pcc_gateway.Lifecycle.State.{
  Lifecycle, Outcome, Phase, new, starting, running, draining, stopped, failed, settle,
}
use pcc_gateway.Lifecycle.Admission
use pcc_gateway.Lifecycle.Publish
use pcc_gateway.Lifecycle.Gauges.{InLimits, IsAdmissible}
use pcc_gateway.Lifecycle.Calls
use pcc_gateway.Lifecycle.Metrics

-- A call that leaves the limits, the gauges and the queue alone.
pub record SameGauges (l l' : Lifecycle) : Type 0 where
  pub limits : l'.limits ≡ l.limits
  pub metrics : l'.metrics ≡ l.metrics
  pub queued : l'.queued_requests ≡ l.queued_requests

same-IsAdmissible : (l l' : Lifecycle) → SameGauges l l' → IsAdmissible l → IsAdmissible l'
same-IsAdmissible l l' s i = rw (s.limits, s.metrics, s.queued) i

-- One call, or one locked part of a call, of any thread.
pub data Call (p : Provider) (l : Lifecycle) : Lifecycle → Type 0 where
  start : Call p l (State.start l).0
  started : Call p l (State.started l).0
  acquire_generation : Call p l (State.acquire_generation l).0
  release_generation : (id : ℕ) → Call p l (State.release_generation p id l).0
  retire_generation : (id : ℕ) → Call p l (State.retire_generation p id l).0
  claim : Call p l (Publish.claim l).0
  construct :
      (id config : ℕ) (resources : List ℕ) → Call p l (Publish.construct p id config resources l).0
  install : (id : ℕ) → Call p l (Publish.install id l).0
  conclude : (id : ℕ) (r : Result LifecycleError ℕ) → Call p l (Publish.conclude id (l, r)).0
  collect_retired : Call p l (Publish.collect_retired l).0
  admit_connection : Call p l (Admission.admit_connection l).0
  release_connection : Call p l (Admission.release_connection l).0
  admit_request : Call p l (Admission.admit_request l).0
  release_request : Call p l (Admission.release_request l).0
  queue_request : Call p l (Admission.queue_request l).0
  release_queued_request : Call p l (Admission.release_queued_request l).0
  admit_upstream : Call p l (Admission.admit_upstream l).0
  release_upstream : Call p l (Admission.release_upstream l).0
  reserve_buffered : (amount : ℤ) → Call p l (Admission.reserve_buffered amount l).0
  release_buffered : (amount : ℤ) → Call p l (Admission.release_buffered amount l).0
  begin_drain : Call p l (State.begin_drain l).0
  stop_if_idle : (force : Bool) → l.state ≡ draining → Call p l (State.stop_if_idle force l).0
  fail : (reason : Text) → Call p l (State.fail reason l)

-- What a fresh gateway comes to.
pub data Reached (p : Provider) (config : ℕ) (limits : AdmissionLimits) : Lifecycle → Type 0 where
  fresh : Reached p config limits (State.new_lifecycle config limits)
  after : (l l' : Lifecycle) → Reached p config limits l → Call p l l' → Reached p config limits l'

settle-SameGauges : (id : ℕ) (r : Ended) (l : Lifecycle) → SameGauges l (State.settle id r l).0
unfolding State.settle
settle-SameGauges id (log, g, result) l = record { limits = refl; metrics = refl; queued = refl }

acquire_generation-SameGauges : (l : Lifecycle) → SameGauges l (State.acquire_generation l).0
unfolding State.acquire_generation
acquire_generation-SameGauges l = elim (Bool-cases (State.is_running l.state)) [
  | inr e ↦
      rw (e, State.acquire_generation) (record { limits = refl; metrics = refl; queued = refl })
  | inl e ↦ elim (Result-cases (retain (l.generations l.current))) [
    | inl (g, f) ↦
        rw (e, f, State.acquire_generation)
          (record { limits = refl; metrics = refl; queued = refl })
    | inr (x, f) ↦
        rw (e, f, State.acquire_generation)
          (record { limits = refl; metrics = refl; queued = refl })
  ]
]

construct-SameGauges :
    (p : Provider) (id config : ℕ) (resources : List ℕ) (l : Lifecycle)
    → SameGauges l (Publish.construct p id config resources l).0
unfolding Publish.construct
construct-SameGauges p id config resources l =
    elim (Result-cases (new_generation p id config resources l.log).1) [
      | inl (g, e) ↦
          rw (e, Publish.construct) (record { limits = refl; metrics = refl; queued = refl })
      | inr (x, e) ↦
          rw (e, Publish.construct) (record { limits = refl; metrics = refl; queued = refl })
    ]

claim-SameGauges : (l : Lifecycle) → SameGauges l (Publish.claim l).0
unfolding Publish.claim
claim-SameGauges l = elim (Bool-cases (State.is_running l.state)) [
  | inr e ↦ rw (e, Publish.claim) (record { limits = refl; metrics = refl; queued = refl })
  | inl e ↦ elim (Bool-cases l.publishing) [
    | inl f ↦ rw (e, f, Publish.claim) (record { limits = refl; metrics = refl; queued = refl })
    | inr f ↦ rw (e, f, Publish.claim) (record { limits = refl; metrics = refl; queued = refl })
  ]
]

install-SameGauges : (id : ℕ) (l : Lifecycle) → SameGauges l (Publish.install id l).0
unfolding Publish.install
install-SameGauges id l = elim (Bool-cases (State.is_running l.state)) [
  | inl e ↦ rw (e, Publish.install) (record { limits = refl; metrics = refl; queued = refl })
  | inr e ↦ rw (e, Publish.install) (record { limits = refl; metrics = refl; queued = refl })
]

start_in-SameGauges : (s : Phase) (l : Lifecycle) → SameGauges l (State.start_in s l).0
unfolding State.start_in
start_in-SameGauges new l = record { limits = refl; metrics = refl; queued = refl }
start_in-SameGauges starting l = record { limits = refl; metrics = refl; queued = refl }
start_in-SameGauges running l = record { limits = refl; metrics = refl; queued = refl }
start_in-SameGauges draining l = record { limits = refl; metrics = refl; queued = refl }
start_in-SameGauges stopped l = record { limits = refl; metrics = refl; queued = refl }
start_in-SameGauges failed l = record { limits = refl; metrics = refl; queued = refl }

started_in-SameGauges : (s : Phase) (l : Lifecycle) → SameGauges l (State.started_in s l).0
unfolding State.started_in
started_in-SameGauges new l = record { limits = refl; metrics = refl; queued = refl }
started_in-SameGauges starting l = record { limits = refl; metrics = refl; queued = refl }
started_in-SameGauges running l = record { limits = refl; metrics = refl; queued = refl }
started_in-SameGauges draining l = record { limits = refl; metrics = refl; queued = refl }
started_in-SameGauges stopped l = record { limits = refl; metrics = refl; queued = refl }
started_in-SameGauges failed l = record { limits = refl; metrics = refl; queued = refl }

begin_drain_in-SameGauges : (s : Phase) (l : Lifecycle) → SameGauges l (State.begin_drain_in s l).0
unfolding State.begin_drain_in
begin_drain_in-SameGauges new l = record { limits = refl; metrics = refl; queued = refl }
begin_drain_in-SameGauges starting l = record { limits = refl; metrics = refl; queued = refl }
begin_drain_in-SameGauges running l = record { limits = refl; metrics = refl; queued = refl }
begin_drain_in-SameGauges draining l = record { limits = refl; metrics = refl; queued = refl }
begin_drain_in-SameGauges stopped l = record { limits = refl; metrics = refl; queued = refl }
begin_drain_in-SameGauges failed l = record { limits = refl; metrics = refl; queued = refl }

drain_active-InLimits :
    (force : Bool) (limits : AdmissionLimits) (m : Metrics) (queued : ℕ)
    → InLimits limits m queued
    → InLimits limits (drain_active force m).1 queued
unfolding drain_active
drain_active-InLimits force limits m queued i =
    elim (Bool-cases (not (Metrics.is_zero (m connections_active +ℤ m requests_active)) && force)) [
      | inl e ↦
          rw (e, drain_active)
            (record {
              connections = omega arith;
              requests = omega arith;
              upstream = i.upstream;
              buffered = i.buffered;
              gauge = i.gauge;
              queue = i.queue;
            })
      | inr e ↦ rw (e, drain_active) i
    ]

stop_if_idle-IsAdmissible :
    (force : Bool) (l : Lifecycle) → IsAdmissible l → IsAdmissible (State.stop_if_idle force l).0
unfolding State.stop_if_idle
stop_if_idle-IsAdmissible force l i =
    elim (Bool-cases (not (State.is_zero (drain_active force l.metrics).0) && not force)) [
      | inl e ↦
          rw (e, State.stop_if_idle)
            (drain_active-InLimits force l.limits l.metrics l.queued_requests i)
      | inr e ↦
          rw (e, State.stop_if_idle)
            (drain_active-InLimits force l.limits l.metrics l.queued_requests i)
    ]

Call-IsAdmissible :
    (p : Provider) (l l' : Lifecycle) → Call p l l' → IsAdmissible l → IsAdmissible l'
unfolding State.start State.started State.begin_drain State.release_generation
    State.retire_generation Publish.conclude Publish.collect_retired State.fail
Call-IsAdmissible p l l' start i = same-IsAdmissible l _ (start_in-SameGauges l.state l) i
Call-IsAdmissible p l l' started i = same-IsAdmissible l _ (started_in-SameGauges l.state l) i
Call-IsAdmissible p l l' acquire_generation i =
    same-IsAdmissible l _ (acquire_generation-SameGauges l) i
Call-IsAdmissible p l l' (release_generation id) i =
    same-IsAdmissible l _ (settle-SameGauges id (release p (l.generations id) l.log) l) i
Call-IsAdmissible p l l' (retire_generation id) i =
    same-IsAdmissible l _ (settle-SameGauges id (retire p (l.generations id) l.log) l) i
Call-IsAdmissible p l l' claim i = same-IsAdmissible l _ (claim-SameGauges l) i
Call-IsAdmissible p l l' (construct id config resources) i =
    same-IsAdmissible l _ (construct-SameGauges p id config resources l) i
Call-IsAdmissible p l l' (install id) i = same-IsAdmissible l _ (install-SameGauges id l) i
Call-IsAdmissible p l l' (conclude id r) i = i
Call-IsAdmissible p l l' collect_retired i = i
Call-IsAdmissible p l l' admit_connection i = Calls.admit_connection-IsAdmissible l i
Call-IsAdmissible p l l' release_connection i = Calls.release_connection-IsAdmissible l i
Call-IsAdmissible p l l' admit_request i = Calls.admit_request-IsAdmissible l i
Call-IsAdmissible p l l' release_request i = Calls.release_request-IsAdmissible l i
Call-IsAdmissible p l l' queue_request i = Calls.queue_request-IsAdmissible l i
Call-IsAdmissible p l l' release_queued_request i = Calls.release_queued_request-IsAdmissible l i
Call-IsAdmissible p l l' admit_upstream i = Calls.admit_upstream-IsAdmissible l i
Call-IsAdmissible p l l' release_upstream i = Calls.release_upstream-IsAdmissible l i
Call-IsAdmissible p l l' (reserve_buffered amount) i =
    Calls.reserve_buffered-IsAdmissible amount l i
Call-IsAdmissible p l l' (release_buffered amount) i =
    Calls.release_buffered-IsAdmissible amount l i
Call-IsAdmissible p l l' begin_drain i =
    same-IsAdmissible l _ (begin_drain_in-SameGauges l.state l) i
Call-IsAdmissible p l l' (stop_if_idle force h) i = stop_if_idle-IsAdmissible force l i
Call-IsAdmissible p l l' (fail reason) i = i

Call-limits : (p : Provider) (l l' : Lifecycle) → Call p l l' → l'.limits ≡ l.limits
unfolding State.start State.started State.begin_drain State.release_generation
    State.retire_generation Publish.conclude Publish.collect_retired State.fail
    Admission.admit_connection Admission.release_connection Admission.admit_request
    Admission.release_request Admission.queue_request Admission.release_queued_request
    Admission.admit_upstream Admission.release_upstream Admission.reserve_buffered
    Admission.release_buffered State.stop_if_idle
Call-limits p l l' start = (start_in-SameGauges l.state l).limits
Call-limits p l l' started = (started_in-SameGauges l.state l).limits
Call-limits p l l' acquire_generation = (acquire_generation-SameGauges l).limits
Call-limits p l l' (release_generation id) =
    (settle-SameGauges id (release p (l.generations id) l.log) l).limits
Call-limits p l l' (retire_generation id) =
    (settle-SameGauges id (retire p (l.generations id) l.log) l).limits
Call-limits p l l' claim = (claim-SameGauges l).limits
Call-limits p l l' (construct id config resources) =
    (construct-SameGauges p id config resources l).limits
Call-limits p l l' (install id) = (install-SameGauges id l).limits
Call-limits p l l' (conclude id r) = refl
Call-limits p l l' collect_retired = refl
Call-limits p l l' admit_connection = ground arith
Call-limits p l l' release_connection = ground arith
Call-limits p l l' admit_request = ground arith
Call-limits p l l' release_request = ground arith
Call-limits p l l' queue_request = ground arith
Call-limits p l l' release_queued_request = ground arith
Call-limits p l l' admit_upstream = ground arith
Call-limits p l l' release_upstream = ground arith
Call-limits p l l' (reserve_buffered amount) = ground arith
Call-limits p l l' (release_buffered amount) = ground arith
Call-limits p l l' begin_drain = (begin_drain_in-SameGauges l.state l).limits
Call-limits p l l' (stop_if_idle force h) = ground arith
Call-limits p l l' (fail reason) = refl

-- In every order of the calls of a gateway's methods, by whatever threads, and whatever the resources'
-- provider does, each gauge stays between zero and its limit, and the gauge of queued requests is the
-- queue's counter.
pub Reached-IsAdmissible :
    (p : Provider) (config : ℕ) (limits : AdmissionLimits) (l : Lifecycle)
    → Reached p config limits l
    → InLimits limits l.metrics l.queued_requests
unfolding State.new_lifecycle zero_metrics
Reached-IsAdmissible p config limits l r = (let (e, i) = sound l r in rw (← e) i)
  where
    sound : (l : Lifecycle) → Reached p config limits l → (l.limits ≡ limits) × IsAdmissible l
    sound l fresh = (
      refl,
      record {
        connections = omega arith;
        requests = omega arith;
        upstream = omega arith;
        buffered = omega arith;
        gauge = refl;
        queue = omega arith;
      },
    )
    sound l (after k l' r c) =
        let (e, i) = sound k r in (Call-limits p k l' c ∙ e, Call-IsAdmissible p k l' c i)
