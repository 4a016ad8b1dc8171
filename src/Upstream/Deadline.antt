-- ===== src/Upstream/Deadline.antt =====
-- `ProxyDeadline` of pcc_gateway/proxy_http1.py: one absolute deadline for the stage that an exchange is in.
use pcc_gateway.Prelude.{
  ℕ, ◌+◌, ◌≡◌, refl, Bool, true, false, not, ◌&&◌, List, [], ◌∷◌, Option, none, some, leb,
  if◌then◌else◌, arith,
}

pub data Stage : Type 0 where
  connect_stage request_body_stage header_stage body_stage idle_stage done_stage : Stage

pub record Timeouts : Type 0 where
  pub connect_ms : ℕ
  pub header_ms : ℕ
  pub body_ms : ℕ
  pub idle_ms : ℕ

-- A deadline of -1 is `none`.
pub record ProxyDeadline : Type 0 where
  pub timeouts : Timeouts
  pub stage : Stage
  pub deadline_ms : Option ℕ
  pub is_cancelled : Bool

unfoldable pub new_deadline : Timeouts → ℕ → ProxyDeadline
new_deadline timeouts now_ms = record {
  timeouts = timeouts;
  stage = connect_stage;
  deadline_ms = some (now_ms + timeouts.connect_ms);
  is_cancelled = false;
}

unfoldable pub connected : ProxyDeadline → ℕ → ProxyDeadline
connected d now_ms = record d {
  stage = header_stage;
  deadline_ms = some (now_ms + d.timeouts.header_ms);
}

-- `request_body`
unfoldable pub send_request_body : ProxyDeadline → Option ℕ → ProxyDeadline
send_request_body d deadline_ms = record d { stage = request_body_stage; deadline_ms = deadline_ms }

-- `response_head`
unfoldable pub see_response_head : ProxyDeadline → ℕ → Bool → ProxyDeadline
see_response_head d now_ms body_expected =
    if body_expected
    then record d { stage = body_stage; deadline_ms = some (now_ms + d.timeouts.body_ms) }
    else record d { stage = done_stage; deadline_ms = none }

abbrev pub is_body : Stage → Bool
is_body body_stage = true
is_body _ = false

unfoldable pub body_progress : ProxyDeadline → ℕ → ProxyDeadline
body_progress d now_ms =
    if is_body d.stage then record d { deadline_ms = some (now_ms + d.timeouts.idle_ms) } else d

-- `finish`
unfoldable pub finish_exchange : ProxyDeadline → ProxyDeadline
finish_exchange d = record d { stage = done_stage; deadline_ms = none }

-- `cancel`
unfoldable pub cancel_exchange : ProxyDeadline → ProxyDeadline
cancel_exchange d = record d { is_cancelled = true; deadline_ms = none }

unfoldable pub expired : ProxyDeadline → ℕ → Bool
expired d now_ms =
    not d.is_cancelled
    && elim d.deadline_ms [ none ↦ false | some deadline_ms ↦ leb deadline_ms now_ms ]

pub data Timeout : Type 0 where
  connect_timeout request_body_timeout header_timeout body_timeout : Timeout

-- `failure`
unfoldable pub timeout_of : Stage → Timeout
timeout_of connect_stage = connect_timeout
timeout_of request_body_stage = request_body_timeout
timeout_of header_stage = header_timeout
timeout_of _ = body_timeout

-- The calls that move a deadline.
pub data DeadlineCall : Type 0 where
  call_connected : ℕ → DeadlineCall
  call_request_body : Option ℕ → DeadlineCall
  call_response_head : ℕ → Bool → DeadlineCall
  call_body_progress : ℕ → DeadlineCall
  call_finish call_cancel : DeadlineCall

unfoldable pub called : DeadlineCall → ProxyDeadline → ProxyDeadline
unfolding connected send_request_body see_response_head body_progress finish_exchange
    cancel_exchange
called (call_connected now_ms) d = connected d now_ms
called (call_request_body deadline_ms) d = send_request_body d deadline_ms
called (call_response_head now_ms body_expected) d = see_response_head d now_ms body_expected
called (call_body_progress now_ms) d = body_progress d now_ms
called call_finish d = finish_exchange d
called call_cancel d = cancel_exchange d

-- A deadline after some calls, the first one first.
unfoldable pub after_calls : ProxyDeadline → List DeadlineCall → ProxyDeadline
unfolding called
after_calls d [] = d
after_calls d (call ∷ calls) = after_calls (called call d) calls

called-cancelled :
    (call : DeadlineCall) (d : ProxyDeadline)
    → d.is_cancelled ≡ true
    → (called call d).is_cancelled ≡ true
unfolding called see_response_head body_progress
called-cancelled (call_connected now_ms) d h = h
called-cancelled (call_request_body deadline_ms) d h = h
called-cancelled (call_response_head now_ms body_expected) d h = ground (arith, h)
called-cancelled (call_body_progress now_ms) d h = ground (arith, h)
called-cancelled call_finish d h = h
called-cancelled call_cancel d h = refl

after_calls-cancelled :
    (d : ProxyDeadline) (calls : List DeadlineCall)
    → d.is_cancelled ≡ true
    → (after_calls d calls).is_cancelled ≡ true
unfolding after_calls
after_calls-cancelled d [] h = h
after_calls-cancelled d (call ∷ calls) h =
    after_calls-cancelled (called call d) calls (called-cancelled call d h)

-- After a cancellation, whatever calls come, the deadline never expires.
pub expired-cancel_exchange :
    (d : ProxyDeadline) (calls : List DeadlineCall) (now_ms : ℕ)
    → expired (after_calls (cancel_exchange d) calls) now_ms ≡ false
unfolding expired cancel_exchange
expired-cancel_exchange d calls now_ms =
    ground (arith, after_calls-cancelled (cancel_exchange d) calls refl)
