-- ===== src/Dns/Attempts.antt =====
-- The fields of `DnsResolveDriver` of pcc_gateway/dns.py, and how its attempts begin and end.
use pcc_gateway.Prelude.{
  ℕ, ◌+◌, ◌/◌, ◌%◌, Bool, true, false, ◌||◌, List, [], ◌∷◌, Option, none, some, Text, ltb, leb,
  if◌then◌else◌, length, get_elem?,
}
use pcc_gateway.Dns.Wire.{DnsError, rcode}
use pcc_gateway.Dns.Operation.{
  Failure, no_failure, cancelled, timed_out, refused, retry_exhausted, Operation, Shared, cancel,
  framed, dns_source,
}
use pcc_gateway.Dns.Config.{Server, ResolverConfig, IoResult}

pub data Protocol : Type 0 where
  udp tcp : Protocol

-- The calls of the transport.
pub data Call : Type 0 where
  call_open : Protocol → Option Server → Call
  call_connect : Option ℕ → Option Server → Call
  call_send : Option ℕ → Text → ℕ → Call
  call_receive : Option ℕ → ℕ → Call
  call_close : ℕ → Call

-- A transport answers a call from all the calls so far, the last one first.
abbrev pub Transport : Type 0
Transport = List Call → IoResult

pub data Phase : Type 0 where
  opening connecting sending receiving : Phase

pub record Driver : Type 0 where
  pub shared : Shared
  pub config : ResolverConfig
  pub start_server : ℕ
  pub attempt : ℕ
  pub max_attempts : ℕ
  pub attempt_deadline_ms : ℕ
  pub server : Option Server
  pub protocol : Protocol
  pub handle : Option ℕ
  pub phase : Phase
  pub send_data : Text
  pub send_offset : ℕ
  pub tcp_buffer : Text
  pub tcp_expected : Option ℕ
  pub invalid_replies : ℕ
  pub done : Bool
  pub values : List Text
  pub source : Text
  pub error : Failure
  pub last_error : Failure
  pub calls : List Call

pub data Kind : Type 0 where
  progress wait_read wait_write retrying ignored failed complete : Kind

-- `DnsDriveResult`
pub record DriveResult : Type 0 where
  pub kind : Kind
  pub handle : Option ℕ
  pub deadline_ms : Option ℕ
  pub server : Option Server
  pub values : List Text
  pub source : Text
  pub error : Failure

abbrev pub result_of : Kind → Option Server → Failure → DriveResult
result_of kind server error = record {
  kind = kind;
  handle = none;
  deadline_ms = none;
  server = server;
  values = [];
  source = [];
  error = error;
}

abbrev pub is_failure : Failure → Bool
is_failure no_failure = false
is_failure _ = true

-- The results of a driver that is done.
unfoldable pub final_result : Driver → DriveResult
final_result d = record {
  kind = if is_failure d.error then failed else complete;
  handle = none;
  deadline_ms = none;
  server = none;
  values = d.values;
  source = d.source;
  error = d.error;
}

-- The deadline of an attempt, never behind the operation's own.
abbrev pub attempt_limit : Driver → ℕ → ℕ
attempt_limit d now_ms =
    if ltb d.shared.operation.deadline_ms (now_ms + d.config.attempt_timeout_ms)
    then d.shared.operation.deadline_ms
    else now_ms + d.config.attempt_timeout_ms

-- `_select_attempt`
unfoldable pub select_attempt : Driver → ℕ → Driver
unfolding framed
select_attempt d now_ms =
    let index =
      (d.start_server + d.attempt / d.config.attempts_per_server) % length d.config.servers in
    let query = d.shared.operation.query in
    record d {
      server = get_elem? d.config.servers index;
      attempt_deadline_ms = attempt_limit d now_ms;
      protocol = if d.config.use_tcp then tcp else udp;
      phase = opening;
      handle = none;
      send_data = if d.config.use_tcp then framed query else query;
      send_offset = 0;
      tcp_buffer = [];
      tcp_expected = none;
      invalid_replies = 0;
    }

abbrev pub closing_calls : Option ℕ → List Call → List Call
closing_calls none calls = calls
closing_calls (some handle) calls = call_close handle ∷ calls

-- `_close`
unfoldable pub close : Driver → Driver
close d = record d { handle = none; calls = closing_calls d.handle d.calls }

-- The operation of a driver that failed.
unfoldable pub fail_operation : Operation → Failure → Operation
fail_operation operation error =
    if operation.done then operation else record operation { error = error; done = true }

-- `_terminal` with an error
unfoldable pub terminal_error : Driver → Failure → DriveResult × Driver
unfolding close fail_operation final_result
terminal_error d error =
    let closed = close d in
    let last : Driver = record closed {
      done = true;
      error = error;
      shared = record closed.shared { operation = fail_operation closed.shared.operation error };
    } in
    (final_result last, last)

-- `_terminal` without one: what the operation found.
unfoldable pub terminal : Driver → DriveResult × Driver
unfolding close final_result
terminal d =
    let closed = close d in
    let last : Driver = record closed {
      done = true;
      values = closed.shared.operation.values;
      source = dns_source;
      error = closed.shared.operation.error;
    } in
    (final_result last, last)

-- `_retry`
unfoldable pub retry : Driver → Failure → ℕ → DriveResult × Driver
unfolding close terminal_error select_attempt
retry d error now_ms =
    let closed = close d in
    let next : Driver = record closed { last_error = error; attempt = closed.attempt + 1 } in
    let chosen = select_attempt next now_ms in
    if leb next.shared.operation.deadline_ms now_ms
    then terminal_error next timed_out
    else if leb next.max_attempts next.attempt
    then terminal_error next (retry_exhausted error)
    else (result_of retrying chosen.server error, chosen)

-- `_wait`
unfoldable pub wait : Driver → Kind → DriveResult × Driver
wait d kind = (
  record {
    kind = kind;
    handle = d.handle;
    deadline_ms = some d.attempt_deadline_ms;
    server = d.server;
    values = [];
    source = [];
    error = no_failure;
  },
  d,
)

abbrev pub is_rcode : DnsError → Bool
is_rcode (rcode n) = true
is_rcode _ = false

-- `_invalid`
unfoldable pub invalid_reply : Driver → DnsError → ℕ → Bool → DriveResult × Driver
unfolding retry
invalid_reply d error now_ms by_tcp =
    let counted : Driver = record d { invalid_replies = d.invalid_replies + 1 } in
    if by_tcp || is_rcode error || leb counted.config.max_invalid_replies counted.invalid_replies
    then retry counted (refused error) now_ms
    else (result_of ignored counted.server (refused error), counted)

-- `_switch_to_tcp`
unfoldable pub switch_to_tcp : Driver → Text → ℕ → DriveResult × Driver
unfolding close
switch_to_tcp d framed_query now_ms =
    let closed = close d in
    let switched : Driver = record closed {
      protocol = tcp;
      phase = opening;
      send_data = framed_query;
      send_offset = 0;
      tcp_buffer = [];
      tcp_expected = none;
      attempt_deadline_ms = attempt_limit closed now_ms;
    } in
    (result_of progress switched.server no_failure, switched)

-- `cancel`
unfoldable pub cancel_driver : Driver → DriveResult × Driver
unfolding terminal terminal_error cancel
cancel_driver d =
    if d.done
    then if is_failure d.error then terminal_error d d.error else terminal d
    else terminal_error
        (record d { shared = record d.shared { operation = cancel d.shared.operation } }) cancelled
