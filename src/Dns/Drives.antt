-- ===== src/Dns/Drives.antt =====
-- What every step of the driver of pcc_gateway/dns.py keeps.
use pcc_gateway.Prelude.{
  ℕ, ◌*◌, ◌≤◌, ◌<◌, ◌≡◌, refl, Bool, true, false, List, [], ◌∷◌, none, some, ◌⊎◌, le→leb, leb, ◌==◌,
  if◌then◌else◌, length, arith, Bool-cases, Option-cases, inl, inr,
}
use pcc_gateway.Dns.Operation.{
  cancelled, attempt_timeout, unexpected_eof, transport_open, transport_connect, transport_send,
  transport_receive, timed_out, Shared,
}
use pcc_gateway.Dns.Config.{ResolverConfig, IoStatus, IoResult, io_ok, would_block, eof, io_error}
use pcc_gateway.Dns.Attempts.{
  Driver, Call, Kind, wait_read, wait_write, Phase, opening, connecting, sending, receiving,
  DriveResult, Transport, close, select_attempt, final_result, terminal_error, retry, wait,
}
use pcc_gateway.Dns.Driver.{
  call_of, error_or, step_open, step_connect, step_send, step_receive, act, step, new_driver,
}
use pcc_gateway.Dns.Bounded.{IsBounded, IsActive, terminal_error-IsBounded, retry-IsBounded}
use pcc_gateway.Dns.Replies.{
  IsRunning, running-IsBounded, received-IsBounded, sent-IsBounded, moved_on,
}

status-cases : (s : IoStatus) → (s ≡ io_ok) ⊎ ((s ≡ would_block) ⊎ ((s ≡ eof) ⊎ (s ≡ io_error)))
status-cases io_ok = inl refl
status-cases would_block = inr (inl refl)
status-cases eof = inr (inr (inl refl))
status-cases io_error = inr (inr (inr refl))

wait-IsBounded : (d : Driver) (kind : Kind) → IsRunning d → IsBounded (wait d kind).1
unfolding wait
wait-IsBounded d kind r = running-IsBounded d r

step_open-IsBounded :
    (d : Driver) (observed : IoResult) (now_ms : ℕ)
    → IsRunning d
    → IsBounded (step_open d observed now_ms).1
unfolding step_open
step_open-IsBounded d observed now_ms r =
    let failing = retry-IsBounded d (error_or observed.error transport_open) now_ms r.active in
    elim (status-cases observed.status) [
      | inr (inl e) ↦ rw (e, step_open) failing
      | inr (inr (inl e)) ↦ rw (e, step_open) failing
      | inr (inr (inr e)) ↦ rw (e, step_open) failing
      | inl e ↦ elim (Option-cases observed.handle) [
        | inl f ↦ rw (e, f, step_open) failing
        | inr (handle, f) ↦ rw (e, f, step_open) (moved_on d connecting (some handle) r)
      ]
    ]

step_connect-IsBounded :
    (d : Driver) (observed : IoResult) (now_ms : ℕ)
    → IsRunning d
    → IsBounded (step_connect d observed now_ms).1
unfolding step_connect
step_connect-IsBounded d observed now_ms r =
    let failing = retry-IsBounded d (error_or observed.error transport_connect) now_ms r.active in
    elim (status-cases observed.status) [
      | inl e ↦ rw (e, step_connect) (moved_on d sending d.handle r)
      | inr (inl e) ↦ rw (e, step_connect) (wait-IsBounded d wait_write r)
      | inr (inr (inl e)) ↦ rw (e, step_connect) failing
      | inr (inr (inr e)) ↦ rw (e, step_connect) failing
    ]

step_send-IsBounded :
    (d : Driver) (observed : IoResult) (now_ms : ℕ)
    → IsRunning d
    → IsBounded (step_send d observed now_ms).1
unfolding step_send
step_send-IsBounded d observed now_ms r =
    let failing = retry-IsBounded d (error_or observed.error transport_send) now_ms r.active in
    elim (status-cases observed.status) [
      | inl e ↦ rw (e, step_send) (sent-IsBounded d observed.count now_ms r)
      | inr (inl e) ↦ rw (e, step_send) (wait-IsBounded d wait_write r)
      | inr (inr (inl e)) ↦ rw (e, step_send) failing
      | inr (inr (inr e)) ↦ rw (e, step_send) failing
    ]

step_receive-IsBounded :
    (d : Driver) (observed : IoResult) (now_ms : ℕ)
    → IsRunning d
    → IsBounded (step_receive d observed now_ms).1
unfolding step_receive
step_receive-IsBounded d observed now_ms r = elim (status-cases observed.status) [
  | inl e ↦ rw (e, step_receive) (received-IsBounded d observed now_ms r)
  | inr (inl e) ↦ rw (e, step_receive) (wait-IsBounded d wait_read r)
  | inr (inr (inl e)) ↦ rw (e, step_receive) (retry-IsBounded d unexpected_eof now_ms r.active)
  | inr (inr (inr e)) ↦
      rw (e, step_receive)
        (retry-IsBounded d (error_or observed.error transport_receive) now_ms r.active)
]

act-IsBounded :
    (phase : Phase) (d : Driver) (observed : IoResult) (now_ms : ℕ)
    → IsRunning d
    → IsBounded (act phase d observed now_ms).1
unfolding act
act-IsBounded opening = step_open-IsBounded
act-IsBounded connecting = step_connect-IsBounded
act-IsBounded sending = step_send-IsBounded
act-IsBounded receiving = step_receive-IsBounded

choice-IsBounded :
    (b : Bool) (x y : DriveResult × Driver)
    → (b ≡ true → IsBounded x.1)
    → (b ≡ false → IsBounded y.1)
    → IsBounded (if b then x else y).1
choice-IsBounded true x y h k = h refl
choice-IsBounded false x y h k = k refl

IsBounded-IsActive : (d : Driver) → IsBounded d → d.done ≡ false → IsActive d
IsBounded-IsActive d b e = record {
  left = b.left e;
  within = b.within;
  offset = b.offset;
  tolerant = let t = b.tolerated e in omega arith;
}

IsBounded-IsRunning :
    (d : Driver) (calls : List Call)
    → IsBounded d
    → d.done ≡ false
    → IsRunning (record d { calls = calls })
IsBounded-IsRunning d calls b e = record {
  active = record {
    left = b.left e;
    within = b.within;
    offset = b.offset;
    tolerant = let t = b.tolerated e in omega arith;
  };
  live = e;
  tolerated = b.tolerated e;
  buffered = b.buffered e;
}

-- Every step of the driver, whatever the transport answers and whatever the clock says, keeps the
-- driver's bounds: at most `max_attempts` attempts, no deadline behind the operation's, a TCP buffer of
-- at most `max_tcp_bytes` and 2 bytes and fewer invalid replies than allowed while it is active, and no handle once it is done.
pub step-IsBounded :
    (transport : Transport) (d : Driver) (now_ms : ℕ)
    → IsBounded d
    → IsBounded (step transport d now_ms).1
unfolding step
step-IsBounded transport d now_ms b =
    let calls = call_of d d.phase ∷ d.calls in
    let late = leb d.attempt_deadline_ms now_ms in
    let expired = retry d attempt_timeout now_ms in
    let acted = act d.phase (record d { calls = calls }) (transport calls) now_ms in
    let over = leb d.shared.operation.deadline_ms now_ms in
    let going = if late then expired else acted in
    let timed = if over then terminal_error d timed_out else going in
    let dead = terminal_error-IsBounded d cancelled b.attempts b.within b.offset in
    let ended = terminal_error-IsBounded d timed_out b.attempts b.within b.offset in
    choice-IsBounded d.done (final_result d, d)
      (if d.shared.operation.is_cancelled then terminal_error d cancelled else timed) (λ e. b)
      λ e.
        let r = IsBounded-IsRunning d calls b e in
        choice-IsBounded d.shared.operation.is_cancelled (terminal_error d cancelled) timed
          (λ f. dead)
          λ f.
            choice-IsBounded over (terminal_error d timed_out) going (λ g. ended)
              λ g.
                choice-IsBounded late expired acted
                  (λ k. retry-IsBounded d attempt_timeout now_ms (IsBounded-IsActive d b e))
                  (λ k.
                    act-IsBounded d.phase (record d { calls = calls }) (transport calls) now_ms r)

-- The driver is born within its bounds.
pub new_driver-IsBounded :
    (shared : Shared) (config : ResolverConfig) (now_ms start_server : ℕ)
    → now_ms ≤ shared.operation.deadline_ms
    → 0 < config.max_invalid_replies
    → IsBounded (new_driver shared config now_ms start_server)
unfolding new_driver select_attempt
new_driver-IsBounded shared config now_ms start_server h k =
    elim (Bool-cases (length config.servers * config.attempts_per_server == 0)) [
      | inl e ↦
          rw (e, new_driver)
            record {
              attempts = omega arith;
              within = h;
              offset = omega arith;
              left = λ l. absurd (ground (arith, l));
              buffered = λ l. absurd (ground (arith, l));
              tolerated = λ l. absurd (ground (arith, l));
              closed = λ l. refl;
            }
      | inr e ↦
          rw (e, new_driver)
            record {
              attempts = omega arith;
              within = ground arith;
              offset = omega arith;
              left = λ l. ground (arith, e);
              buffered = λ l. omega arith;
              tolerated = λ l. k;
              closed = λ l. refl;
            }
    ]

-- The steps of a driver at the times of a list, the first one first.
unfoldable pub drive : Transport → Driver → List ℕ → Driver
unfolding step
drive transport d [] = d
drive transport d (now_ms ∷ times) = drive transport (step transport d now_ms).1 times

drive-keeps :
    (transport : Transport) (d : Driver) (times : List ℕ)
    → IsBounded d
    → IsBounded (drive transport d times)
unfolding drive
drive-keeps transport d [] b = b
drive-keeps transport d (now_ms ∷ times) b =
    drive-keeps transport (step transport d now_ms).1 times (step-IsBounded transport d now_ms b)

-- A driver that starts before its deadline stays within its bounds over any steps, whatever the transport
-- answers and whatever the clock says: at most `max_attempts` attempts, no attempt's deadline behind the operation's, a TCP
-- buffer of at most `max_tcp_bytes` and 2 bytes and fewer invalid replies than the limit while it is active,
-- and no handle once it is done.
pub drive-IsBounded :
    (transport : Transport) (shared : Shared) (config : ResolverConfig) (now_ms start_server : ℕ)
    (times : List ℕ)
    → now_ms ≤ shared.operation.deadline_ms
    → 0 < config.max_invalid_replies
    → IsBounded (drive transport (new_driver shared config now_ms start_server) times)
drive-IsBounded transport shared config now_ms start_server times h k =
    drive-keeps transport (new_driver shared config now_ms start_server) times
      (new_driver-IsBounded shared config now_ms start_server h k)

step-done :
    (transport : Transport) (d : Driver) (now_ms : ℕ)
    → d.shared.operation.deadline_ms ≤ now_ms
    → (step transport d now_ms).1.done ≡ true
unfolding step terminal_error close
step-done transport d now_ms h = ground (arith, le→leb d.shared.operation.deadline_ms now_ms h)

-- At the operation's deadline or later, one step ends the driver, and then it holds no handle.
pub step-deadline :
    (transport : Transport) (d : Driver) (now_ms : ℕ)
    → IsBounded d
    → d.shared.operation.deadline_ms ≤ now_ms
    → ((step transport d now_ms).1.done ≡ true) × ((step transport d now_ms).1.handle ≡ none)
step-deadline transport d now_ms b h =
    let over = step-done transport d now_ms h in
    (over, (step-IsBounded transport d now_ms b).closed over)
