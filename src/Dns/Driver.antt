-- ===== src/Dns/Driver.antt =====
-- `DnsResolveDriver.step` of pcc_gateway/dns.py: each step calls the transport at most once, apart from
-- closing a handle.
use pcc_gateway.Prelude.{
  codes, ℕ, ◌+◌, ◌-◌, ◌*◌, Bool, true, false, not, ◌&&◌, ◌||◌, [], ◌∷◌, ◌++◌, Option, none, some,
  Text, ltb, leb, ◌==◌, if◌then◌else◌, is_empty, length, get_or, take, ok, err,
}
use pcc_gateway.Dns.Wire.{server_mismatch}
use pcc_gateway.Dns.Operation.{
  Failure, no_failure, cancelled, timed_out, no_dns_servers, transport_open, transport_connect,
  transport_send, transport_receive, attempt_timeout, invalid_send_progress, short_udp_send,
  unexpected_eof, empty_response, response_too_large, bad_tcp_frame_length, transport_error, Shared,
  framed, receive,
}
use pcc_gateway.Dns.Config.{
  Server, Peer, nobody, matches_peer, ResolverConfig, io_ok, would_block, eof, io_error, IoResult,
}
use pcc_gateway.Dns.Attempts.{
  Call, DriveResult, Driver, Phase, Protocol, Transport, attempt_limit, call_connect, call_open,
  call_receive, call_send, connecting, final_result, invalid_reply, opening, progress, receiving,
  result_of, retry, select_attempt, sending, switch_to_tcp, tcp, terminal, terminal_error, udp,
  wait, wait_read, wait_write,
}

-- `observed.error or …`
abbrev pub error_or : Text → Failure → Failure
error_or text why = if is_empty text then why else transport_error text

unfoldable pub step_open : Driver → IoResult → ℕ → DriveResult × Driver
unfolding retry
step_open d observed now_ms =
    let failing = retry d (error_or observed.error transport_open) now_ms in
    elim observed.status [
      | io_ok ↦ elim observed.handle [
        | none ↦ failing
        | some handle ↦ (
          result_of progress d.server no_failure,
          record d { handle = some handle; phase = connecting },
        )
      ]
      | _ ↦ failing
    ]

unfoldable pub step_connect : Driver → IoResult → ℕ → DriveResult × Driver
unfolding retry wait
step_connect d observed now_ms =
    let failing = retry d (error_or observed.error transport_connect) now_ms in
    elim observed.status [
      | would_block ↦ wait d wait_write
      | io_ok ↦ (result_of progress d.server no_failure, record d { phase = sending })
      | _ ↦ failing
    ]

abbrev pub is_udp : Protocol → Bool
is_udp udp = true
is_udp tcp = false

-- The bytes that a send took.
unfoldable pub sent : Driver → ℕ → ℕ → DriveResult × Driver
unfolding retry
sent d count now_ms =
    let remaining = length d.send_data - d.send_offset in
    let next : Driver = record d {
      send_offset = d.send_offset + count;
      phase = if d.send_offset + count == length d.send_data then receiving else d.phase;
    } in
    if count == 0 || ltb remaining count
    then retry d invalid_send_progress now_ms
    else if is_udp d.protocol && not (count == remaining)
    then retry d short_udp_send now_ms
    else (result_of progress d.server no_failure, next)

unfoldable pub step_send : Driver → IoResult → ℕ → DriveResult × Driver
unfolding retry wait sent
step_send d observed now_ms =
    let failing = retry d (error_or observed.error transport_send) now_ms in
    elim observed.status [
      | would_block ↦ wait d wait_write
      | io_ok ↦ sent d observed.count now_ms
      | _ ↦ failing
    ]

abbrev pub from_server : Option Server → Peer → Bool
from_server none peer = false
from_server (some server) peer = matches_peer server peer

-- A reply by UDP.
unfoldable pub udp_reply : Driver → IoResult → ℕ → DriveResult × Driver
unfolding matches_peer invalid_reply receive switch_to_tcp terminal
udp_reply d observed now_ms =
    if not (from_server d.server observed.peer)
    then invalid_reply d server_mismatch now_ms false
    else let (answer, shared) = receive d.shared observed.content now_ms in
      let got : Driver = record d { shared = shared } in
      elim answer [
        | err e ↦ invalid_reply got e now_ms false
        | ok none ↦ terminal got
        | ok (some framed_query) ↦ switch_to_tcp got framed_query now_ms
      ]

-- The TCP frame, if all of it is there.
unfoldable pub tcp_frame : Driver → ℕ → ℕ → DriveResult × Driver
unfolding receive invalid_reply terminal
tcp_frame d expected now_ms =
    let (answer, shared) = receive d.shared (take (expected + 2) d.tcp_buffer) now_ms in
    let got : Driver = record d { shared = shared } in
    if ltb (length d.tcp_buffer) (expected + 2)
    then (
      result_of progress d.server no_failure,
      record d { attempt_deadline_ms = attempt_limit d now_ms },
    )
    else elim answer [ err e ↦ invalid_reply got e now_ms true | ok framed_query ↦ terminal got ]

-- The bytes of a TCP stream, the length of its frame first.
unfoldable pub tcp_bytes : Driver → ℕ → DriveResult × Driver
unfolding tcp_frame retry
tcp_bytes d now_ms =
    let size = get_or d.tcp_buffer 0 0 * 256 + get_or d.tcp_buffer 1 0 in
    let sized : Driver = record d { tcp_expected = some size } in
    elim d.tcp_expected [
      | some expected ↦ tcp_frame d expected now_ms
      | none ↦
          if ltb (length d.tcp_buffer) 2
          then (
            result_of progress d.server no_failure,
            record d { attempt_deadline_ms = attempt_limit d now_ms },
          )
          else if size == 0 || ltb d.config.max_tcp_bytes size
          then retry sized bad_tcp_frame_length now_ms
          else tcp_frame sized size now_ms
    ]

abbrev pub is_nobody : Peer → Bool
is_nobody nobody = true
is_nobody _ = false

-- A part of a reply by TCP.
unfoldable pub tcp_reply : Driver → IoResult → ℕ → DriveResult × Driver
unfolding matches_peer invalid_reply tcp_bytes retry
tcp_reply d observed now_ms =
    let filled : Driver = record d { tcp_buffer = d.tcp_buffer ++ observed.content } in
    if not (is_nobody observed.peer) && not (from_server d.server observed.peer)
    then invalid_reply d server_mismatch now_ms true
    else if ltb (d.config.max_tcp_bytes + 2) (length filled.tcp_buffer)
    then retry filled response_too_large now_ms
    else tcp_bytes filled now_ms

abbrev pub receive_limit : Driver → ℕ
receive_limit d = if is_udp d.protocol then d.config.max_udp_bytes else d.config.max_tcp_bytes

-- The bytes that a receive brought.
unfoldable pub received : Driver → IoResult → ℕ → DriveResult × Driver
unfolding retry udp_reply tcp_reply
received d observed now_ms =
    if is_empty observed.content
    then retry d empty_response now_ms
    else if ltb (receive_limit d) (length observed.content)
    then retry d response_too_large now_ms
    else if is_udp d.protocol
    then udp_reply d observed now_ms
    else tcp_reply d observed now_ms

unfoldable pub step_receive : Driver → IoResult → ℕ → DriveResult × Driver
unfolding retry wait received
step_receive d observed now_ms = elim observed.status [
  | would_block ↦ wait d wait_read
  | eof ↦ retry d unexpected_eof now_ms
  | io_error ↦ retry d (error_or observed.error transport_receive) now_ms
  | io_ok ↦ received d observed now_ms
]

-- The call that a step makes.
abbrev pub call_of : Driver → Phase → Call
call_of d opening = call_open d.protocol d.server
call_of d connecting = call_connect d.handle d.server
call_of d sending = call_send d.handle d.send_data d.send_offset
call_of d receiving = call_receive d.handle (receive_limit d)

unfoldable pub act : Phase → Driver → IoResult → ℕ → DriveResult × Driver
unfolding step_open step_connect step_send step_receive
act opening = step_open
act connecting = step_connect
act sending = step_send
act receiving = step_receive

-- `step`
unfoldable pub step : Transport → Driver → ℕ → DriveResult × Driver
unfolding final_result terminal_error retry act
step transport d now_ms =
    let calls = call_of d d.phase ∷ d.calls in
    if d.done
    then (final_result d, d)
    else if d.shared.operation.is_cancelled
    then terminal_error d cancelled
    else if leb d.shared.operation.deadline_ms now_ms
    then terminal_error d timed_out
    else if leb d.attempt_deadline_ms now_ms
    then retry d attempt_timeout now_ms
    else act d.phase (record d { calls = calls }) (transport calls) now_ms

-- `DnsResolveDriver.__init__` of an operation that is to be asked for.
unfoldable pub new_driver : Shared → ResolverConfig → ℕ → ℕ → Driver
unfolding framed select_attempt
new_driver shared config now_ms start_server =
    let attempts = length config.servers * config.attempts_per_server in
    let query = shared.operation.query in
    let empty : Driver = record {
      shared = shared;
      config = config;
      start_server = start_server;
      attempt = 0;
      max_attempts = attempts;
      attempt_deadline_ms = now_ms;
      server = none;
      protocol = if config.use_tcp then tcp else udp;
      handle = none;
      phase = opening;
      send_data = if config.use_tcp then framed query else query;
      send_offset = 0;
      tcp_buffer = [];
      tcp_expected = none;
      invalid_replies = 0;
      done = false;
      values = [];
      source = [];
      error = no_failure;
      last_error = no_failure;
      calls = [];
    } in
    if attempts == 0
    then record empty { done = true; error = no_dns_servers }
    else select_attempt empty now_ms

-- `FailClosedDnsTransport`
abbrev pub fail_closed_transport : Transport
fail_closed_transport calls = record {
  status = io_error;
  handle = none;
  count = 0;
  content = [];
  peer = nobody;
  error = codes "live-dns-transport-unavailable";
}
