-- ===== src/Dns/Replies.antt =====
-- What the driver of pcc_gateway/dns.py keeps when a reply comes.
use pcc_gateway.Prelude.{
  ℕ, ◌+◌, ◌-◌, ◌*◌, ◌≤◌, ◌<◌, ◌≡◌, true, false, not, ◌&&◌, ◌||◌, ◌++◌, Option, none, some, Text,
  ltb, ◌==◌, is_empty, length, get_or, take, arith, Bool-cases, Result-cases, Option-cases, inl,
  inr,
}
use pcc_gateway.Dns.Wire.{server_mismatch}
use pcc_gateway.Dns.Operation.{
  response_too_large, bad_tcp_frame_length, empty_response, invalid_send_progress, short_udp_send,
  receive,
}
use pcc_gateway.Dns.Config.{IoResult}
use pcc_gateway.Dns.Attempts.{Driver, attempt_limit, Phase}
use pcc_gateway.Dns.Driver.{
  receive_limit, is_udp, is_nobody, from_server, sent, udp_reply, tcp_frame, tcp_bytes, tcp_reply,
  received,
}
use pcc_gateway.Dns.Bounded.{
  IsBounded, IsActive, terminal-IsBounded, retry-IsBounded, invalid_reply-IsBounded,
  switch_to_tcp-IsBounded,
}
use pcc_gateway.Dns.Deadlines.{receive-deadline}

-- A driver whose operation has received something.
receive-IsActive :
    (d : Driver) (payload : Text) (now_ms : ℕ)
    → IsActive d
    → IsActive (record d { shared = (receive d.shared payload now_ms).1 })
receive-IsActive d payload now_ms a = record {
  left = a.left;
  within = omega (arith, a.within, receive-deadline d.shared payload now_ms);
  offset = a.offset;
  tolerant = a.tolerant;
}

-- What holds of a driver in the middle of a step, its buffer included.
pub record IsRunning (d : Driver) : Type 0 where
  pub active : IsActive d
  pub live : d.done ≡ false
  pub tolerated : d.invalid_replies < d.config.max_invalid_replies
  pub buffered : length d.tcp_buffer ≤ d.config.max_tcp_bytes + 2

-- The driver goes on as it is, perhaps at another phase or with a handle.
pub running-IsBounded : (d : Driver) → IsRunning d → IsBounded d
running-IsBounded d r = record {
  attempts = omega (arith, r.active.left);
  within = r.active.within;
  offset = r.active.offset;
  left = λ h. r.active.left;
  buffered = λ h. r.buffered;
  tolerated = λ h. r.tolerated;
  closed = λ h. absurd (ground (arith, h, r.live));
}

udp_reply-IsBounded :
    (d : Driver) (observed : IoResult) (now_ms : ℕ)
    → IsRunning d
    → IsBounded (udp_reply d observed now_ms).1
unfolding udp_reply
udp_reply-IsBounded d observed now_ms r =
    let got : Driver = record d { shared = (receive d.shared observed.content now_ms).1 } in
    let active = receive-IsActive d observed.content now_ms r.active in
    elim (Bool-cases (from_server d.server observed.peer)) [
      | inr e ↦
          rw (e, udp_reply)
            (invalid_reply-IsBounded d server_mismatch now_ms false r.active r.buffered r.live)
      | inl e ↦ elim (Result-cases (receive d.shared observed.content now_ms).0) [
        | inr (error, f) ↦
            rw (e, f, udp_reply)
              (invalid_reply-IsBounded got error now_ms false active r.buffered r.live)
        | inl (none, f) ↦ rw (e, f, udp_reply) (terminal-IsBounded got active)
        | inl (some framed_query, f) ↦
            rw (e, f, udp_reply)
              (switch_to_tcp-IsBounded got framed_query now_ms active r.tolerated)
      ]
    ]

waiting-IsRunning :
    (d : Driver) (now_ms : ℕ)
    → IsRunning d
    → IsRunning (record d { attempt_deadline_ms = attempt_limit d now_ms })
waiting-IsRunning d now_ms r = record {
  active = record {
    left = r.active.left;
    within = ground arith;
    offset = r.active.offset;
    tolerant = r.active.tolerant;
  };
  live = r.live;
  tolerated = r.tolerated;
  buffered = r.buffered;
}

tcp_frame-IsBounded :
    (d : Driver) (expected now_ms : ℕ) → IsRunning d → IsBounded (tcp_frame d expected now_ms).1
unfolding tcp_frame
tcp_frame-IsBounded d expected now_ms r =
    let frame = take (expected + 2) d.tcp_buffer in
    let got : Driver = record d { shared = (receive d.shared frame now_ms).1 } in
    let active = receive-IsActive d frame now_ms r.active in
    elim (Bool-cases (ltb (length d.tcp_buffer) (expected + 2))) [
      | inl e ↦
          rw (e, tcp_frame)
            (running-IsBounded (record d { attempt_deadline_ms = attempt_limit d now_ms })
              (waiting-IsRunning d now_ms r))
      | inr e ↦ elim (Result-cases (receive d.shared frame now_ms).0) [
        | inr (error, f) ↦
            rw (e, f, tcp_frame)
              (invalid_reply-IsBounded got error now_ms true active r.buffered r.live)
        | inl (framed_query, f) ↦ rw (e, f, tcp_frame) (terminal-IsBounded got active)
      ]
    ]

tcp_bytes-IsBounded : (d : Driver) (now_ms : ℕ) → IsRunning d → IsBounded (tcp_bytes d now_ms).1
unfolding tcp_bytes
tcp_bytes-IsBounded d now_ms r =
    let size = get_or d.tcp_buffer 0 0 * 256 + get_or d.tcp_buffer 1 0 in
    let sized : Driver = record d { tcp_expected = some size } in
    let active : IsActive sized = record {
      left = r.active.left;
      within = r.active.within;
      offset = r.active.offset;
      tolerant = r.active.tolerant;
    } in
    let running : IsRunning sized = record {
      active = active;
      live = r.live;
      tolerated = r.tolerated;
      buffered = r.buffered;
    } in
    elim (Option-cases d.tcp_expected) [
      | inr (expected, e) ↦ rw (e, tcp_bytes) (tcp_frame-IsBounded d expected now_ms r)
      | inl e ↦ elim (Bool-cases (ltb (length d.tcp_buffer) 2)) [
        | inl f ↦
            rw (e, f, tcp_bytes)
              (running-IsBounded (record d { attempt_deadline_ms = attempt_limit d now_ms })
                (waiting-IsRunning d now_ms r))
        | inr f ↦ elim (Bool-cases (size == 0 || ltb d.config.max_tcp_bytes size)) [
          | inl g ↦
              rw (e, f, g, tcp_bytes) (retry-IsBounded sized bad_tcp_frame_length now_ms active)
          | inr g ↦ rw (e, f, g, tcp_bytes) (tcp_frame-IsBounded sized size now_ms running)
        ]
      ]
    ]

tcp_reply-IsBounded :
    (d : Driver) (observed : IoResult) (now_ms : ℕ)
    → IsRunning d
    → IsBounded (tcp_reply d observed now_ms).1
unfolding tcp_reply
tcp_reply-IsBounded d observed now_ms r =
    let filled : Driver = record d { tcp_buffer = d.tcp_buffer ++ observed.content } in
    let active : IsActive filled = record {
      left = r.active.left;
      within = r.active.within;
      offset = r.active.offset;
      tolerant = r.active.tolerant;
    } in
    elim (Bool-cases (not (is_nobody observed.peer) && not (from_server d.server observed.peer))) [
      | inl e ↦
          rw (e, tcp_reply)
            (invalid_reply-IsBounded d server_mismatch now_ms true r.active r.buffered r.live)
      | inr e ↦
          elim (Bool-cases
            (ltb (d.config.max_tcp_bytes + 2) (length (d.tcp_buffer ++ observed.content)))) [
              | inl f ↦
                  rw (e, f, tcp_reply) (retry-IsBounded filled response_too_large now_ms active)
              | inr f ↦
                  rw (e, f, tcp_reply)
                    (tcp_bytes-IsBounded filled now_ms (record {
                      active = active;
                      live = r.live;
                      tolerated = r.tolerated;
                      buffered = ground (arith, f);
                    }))
            ]
    ]

pub received-IsBounded :
    (d : Driver) (observed : IoResult) (now_ms : ℕ)
    → IsRunning d
    → IsBounded (received d observed now_ms).1
unfolding received
received-IsBounded d observed now_ms r = elim (Bool-cases (is_empty observed.content)) [
  | inl e ↦ rw (e, received) (retry-IsBounded d empty_response now_ms r.active)
  | inr e ↦ elim (Bool-cases (ltb (receive_limit d) (length observed.content))) [
    | inl f ↦ rw (e, f, received) (retry-IsBounded d response_too_large now_ms r.active)
    | inr f ↦ elim (Bool-cases (is_udp d.protocol)) [
      | inl g ↦ rw (e, f, g, received) (udp_reply-IsBounded d observed now_ms r)
      | inr g ↦ rw (e, f, g, received) (tcp_reply-IsBounded d observed now_ms r)
    ]
  ]
]

pub sent-IsBounded :
    (d : Driver) (count now_ms : ℕ) → IsRunning d → IsBounded (sent d count now_ms).1
unfolding sent
sent-IsBounded d count now_ms r =
    let remaining = length d.send_data - d.send_offset in
    elim (Bool-cases (count == 0 || ltb remaining count)) [
      | inl e ↦ rw (e, sent) (retry-IsBounded d invalid_send_progress now_ms r.active)
      | inr e ↦ elim (Bool-cases (is_udp d.protocol && not (count == remaining))) [
        | inl f ↦ rw (e, f, sent) (retry-IsBounded d short_udp_send now_ms r.active)
        | inr f ↦
            rw (e, f, sent)
              record {
                attempts = omega (arith, r.active.left);
                within = r.active.within;
                offset = let below = r.active.offset in ground (arith, e);
                left = λ h. r.active.left;
                buffered = λ h. r.buffered;
                tolerated = λ h. r.tolerated;
                closed = λ h. absurd (ground (arith, h, r.live));
              }
      ]
    ]

-- A driver that only its phase and its handle change.
pub moved_on :
    (d : Driver) (phase : Phase) (handle : Option ℕ)
    → IsRunning d
    → IsBounded (record d { phase = phase; handle = handle })
moved_on d phase handle r = record {
  attempts = omega (arith, r.active.left);
  within = r.active.within;
  offset = r.active.offset;
  left = λ h. r.active.left;
  buffered = λ h. r.buffered;
  tolerated = λ h. r.tolerated;
  closed = λ h. absurd (ground (arith, h, r.live));
}
