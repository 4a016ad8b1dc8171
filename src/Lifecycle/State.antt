-- ===== src/Lifecycle/State.antt =====
-- The state of `GatewayLifecycle` of pcc_gateway/lifecycle.py and its transitions. A method that takes
-- the owner lock is one step; a method that raises leaves the state that it returns beside the error.
use pcc_gateway.Prelude.{
  ℕ, Bool, true, false, not, ◌&&◌, List, [], Text, ◌==◌, if◌then◌else◌, ℤ, pos, negsuc, Result, ok,
  err,
}
use pcc_gateway.Lifecycle.Generation.{
  LifecycleError, started_twice, not_starting, not_accepting, cannot_drain, not_draining,
  Generation, Call, Ended, Provider, retain, release, retire,
}
use pcc_gateway.Lifecycle.Metrics.{Metrics, zero_metrics, drain_active, AdmissionLimits}

-- STATE_NEW to STATE_FAILED
pub data Phase : Type 0 where
  new starting running draining stopped failed : Phase

-- The generations of a lifecycle stand under their ids, which are never given twice.
pub record Lifecycle : Type 0 where
  pub state : Phase
  pub next_generation_id : ℕ
  pub current : ℕ
  pub generations : ℕ → Generation
  pub retired_generations : List ℕ
  pub publishing : Bool
  pub limits : AdmissionLimits
  pub metrics : Metrics
  pub queued_requests : ℕ
  pub failed_reason : Text
  pub log : List Call

abbrev pub Outcome : Type 0 → Type 0
Outcome A = Lifecycle × Result LifecycleError A

abbrev pub put_generation : ℕ → Generation → Lifecycle → Lifecycle
put_generation id g l = record l {
  generations = λ other. if id == other then g else l.generations other;
}

-- What stands under an id that is not given yet.
abbrev pub no_generation : Generation
no_generation = record {
  generation_id = 0;
  config = 0;
  resources = [];
  references = 0;
  retired = true;
  is_released = true;
}

abbrev pub first_generation : ℕ → Generation
first_generation config = record {
  generation_id = 1;
  config = config;
  resources = [];
  references = 1;
  retired = false;
  is_released = false;
}

-- `GatewayLifecycle(config, limits)`
unfoldable pub new_lifecycle : ℕ → AdmissionLimits → Lifecycle
unfolding zero_metrics
new_lifecycle config limits = record {
  state = new;
  next_generation_id = 2;
  current = 1;
  generations = λ id. if 1 == id then first_generation config else no_generation;
  retired_generations = [];
  publishing = false;
  limits = limits;
  metrics = zero_metrics;
  queued_requests = 0;
  failed_reason = [];
  log = [];
}

abbrev pub is_running : Phase → Bool
is_running running = true
is_running _ = false

unfoldable pub start_in : Phase → Lifecycle → Outcome (Unit {0})
start_in new l = (record l { state = starting }, ok tt)
start_in _ l = (l, err started_twice)

unfoldable pub start : Lifecycle → Outcome (Unit {0})
unfolding start_in
start l = start_in l.state l

unfoldable pub started_in : Phase → Lifecycle → Outcome (Unit {0})
started_in starting l = (record l { state = running }, ok tt)
started_in _ l = (l, err not_starting)

unfoldable pub started : Lifecycle → Outcome (Unit {0})
unfolding started_in
started l = started_in l.state l

-- The id that is returned stands for the generation.
unfoldable pub acquire_generation : Lifecycle → Outcome ℕ
unfolding retain
acquire_generation l =
    if not (is_running l.state)
    then (l, err not_accepting)
    else elim (retain (l.generations l.current)) [
      | err e ↦ (l, err e)
      | ok g ↦ (put_generation l.current g l, ok l.current)
    ]

-- What a method of a generation leaves is put back into the lifecycle.
unfoldable pub settle : ℕ → Ended → Lifecycle → Outcome ℕ
settle id (log, g, result) l = (record (put_generation id g l) { log = log }, result)

-- `GatewayGeneration.release` and `retire` of a generation of the lifecycle.
unfoldable pub release_generation : Provider → ℕ → Lifecycle → Outcome ℕ
unfolding settle release
release_generation p id l = settle id (release p (l.generations id) l.log) l

unfoldable pub retire_generation : Provider → ℕ → Lifecycle → Outcome ℕ
unfolding settle retire
retire_generation p id l = settle id (retire p (l.generations id) l.log) l

unfoldable pub begin_drain_in : Phase → Lifecycle → Outcome (Unit {0})
begin_drain_in starting l = (record l { state = draining }, ok tt)
begin_drain_in running l = (record l { state = draining }, ok tt)
begin_drain_in _ l = (l, err cannot_drain)

unfoldable pub begin_drain : Lifecycle → Outcome (Unit {0})
unfolding begin_drain_in
begin_drain l = begin_drain_in l.state l

abbrev pub is_zero : ℤ → Bool
is_zero (pos n) = n == 0
is_zero (negsuc n) = false

-- The locked part of `finish_drain`: whether the gateway stopped.
unfoldable pub stop_if_idle : Bool → Lifecycle → Lifecycle × Bool
unfolding drain_active
stop_if_idle force l =
    let (active, values) = drain_active force l.metrics in
    if not (is_zero active) && not force
    then (record l { metrics = values }, false)
    else (record l { metrics = values; state = stopped }, true)

unfoldable pub finish_drain_in : Phase → Provider → Bool → Lifecycle → Outcome Bool
unfolding stop_if_idle retire_generation
finish_drain_in draining p force l =
    let (l', idle) = stop_if_idle force l in
    if idle
    then (let (l'', result) = retire_generation p l'.current l' in
        (l'', elim result [ err e ↦ err e | ok freed ↦ ok true ]))
    else (l', ok false)
finish_drain_in _ p force l = (l, err not_draining)

unfoldable pub finish_drain : Provider → Bool → Lifecycle → Outcome Bool
unfolding finish_drain_in
finish_drain p force l = finish_drain_in l.state p force l

unfoldable pub fail : Text → Lifecycle → Lifecycle
fail reason l = record l { failed_reason = reason; state = failed }
