-- ===== src/Dns/Bounded.antt =====
-- The bounds of the driver of pcc_gateway/dns.py, where an attempt or the driver ends.
use pcc_gateway.Prelude.{
  ℕ, ◌+◌, ◌≤◌, ◌<◌, ◌≡◌, refl, Bool, true, false, ◌||◌, none, Text, leb, length, arith, Bool-cases,
  inl, inr,
}
use pcc_gateway.Dns.Wire.{DnsError}
use pcc_gateway.Dns.Operation.{Failure, timed_out, retry_exhausted, refused}
use pcc_gateway.Dns.Attempts.{
  Driver, is_rcode, close, select_attempt, fail_operation, terminal_error, terminal, retry,
  invalid_reply, switch_to_tcp,
}

-- The bounds of a driver, on its attempts, its deadline and its buffers; it holds no handle when it
-- is done.
pub record IsBounded (d : Driver) : Type 0 where
  pub attempts : d.attempt ≤ d.max_attempts
  pub within : d.attempt_deadline_ms ≤ d.shared.operation.deadline_ms
  pub offset : d.send_offset ≤ length d.send_data
  pub left : d.done ≡ false → d.attempt < d.max_attempts
  pub buffered : d.done ≡ false → length d.tcp_buffer ≤ d.config.max_tcp_bytes + 2
  pub tolerated : d.done ≡ false → d.invalid_replies < d.config.max_invalid_replies
  pub closed : d.done ≡ true → d.handle ≡ none

-- What a driver in the middle of a step has.
pub record IsActive (d : Driver) : Type 0 where
  pub left : d.attempt < d.max_attempts
  pub within : d.attempt_deadline_ms ≤ d.shared.operation.deadline_ms
  pub offset : d.send_offset ≤ length d.send_data
  pub tolerant : 0 < d.config.max_invalid_replies

pub terminal_error-IsBounded :
    (d : Driver) (error : Failure)
    → d.attempt ≤ d.max_attempts
    → d.attempt_deadline_ms ≤ d.shared.operation.deadline_ms
    → d.send_offset ≤ length d.send_data
    → IsBounded (terminal_error d error).1
unfolding terminal_error close fail_operation
terminal_error-IsBounded d error a b c = record {
  attempts = a;
  within = ground (arith, b);
  offset = c;
  left = λ h. absurd (ground (arith, h));
  buffered = λ h. absurd (ground (arith, h));
  tolerated = λ h. absurd (ground (arith, h));
  closed = λ h. refl;
}

pub terminal-IsBounded : (d : Driver) → IsActive d → IsBounded (terminal d).1
unfolding terminal close
terminal-IsBounded d a = record {
  attempts = omega (arith, a.left);
  within = a.within;
  offset = a.offset;
  left = λ h. absurd (ground (arith, h));
  buffered = λ h. absurd (ground (arith, h));
  tolerated = λ h. absurd (ground (arith, h));
  closed = λ h. refl;
}

pub retry-IsBounded :
    (d : Driver) (error : Failure) (now_ms : ℕ) → IsActive d → IsBounded (retry d error now_ms).1
unfolding retry select_attempt close
retry-IsBounded d error now_ms a =
    let attempted : Driver = record (close d) { last_error = error; attempt = d.attempt + 1 } in
    elim (Bool-cases (leb d.shared.operation.deadline_ms now_ms)) [
      | inl e ↦
          rw (e, retry)
            (terminal_error-IsBounded attempted timed_out (omega (arith, a.left)) a.within a.offset)
      | inr e ↦ elim (Bool-cases (leb d.max_attempts (d.attempt + 1))) [
        | inl f ↦
            rw (e, f, retry)
              (terminal_error-IsBounded attempted (retry_exhausted error) (omega (arith, a.left))
                a.within a.offset)
        | inr f ↦
            rw (e, f, retry)
              record {
                attempts = ground (arith, f);
                within = ground arith;
                offset = ground arith;
                left = λ h. ground (arith, f);
                buffered = λ h. omega arith;
                tolerated = λ h. a.tolerant;
                closed = λ h. refl;
              }
      ]
    ]

pub invalid_reply-IsBounded :
    (d : Driver) (error : DnsError) (now_ms : ℕ) (by_tcp : Bool)
    → IsActive d
    → length d.tcp_buffer ≤ d.config.max_tcp_bytes + 2
    → d.done ≡ false
    → IsBounded (invalid_reply d error now_ms by_tcp).1
unfolding invalid_reply
invalid_reply-IsBounded d error now_ms by_tcp a b live =
    let counted : Driver = record d { invalid_replies = d.invalid_replies + 1 } in
    let active : IsActive counted = record {
      left = a.left;
      within = a.within;
      offset = a.offset;
      tolerant = a.tolerant;
    } in
    elim (Bool-cases
      (by_tcp || is_rcode error || leb d.config.max_invalid_replies (d.invalid_replies + 1))) [
        | inl e ↦ rw (e, invalid_reply) (retry-IsBounded counted (refused error) now_ms active)
        | inr e ↦
            rw (e, invalid_reply)
              record {
                attempts = omega (arith, a.left);
                within = a.within;
                offset = a.offset;
                left = λ h. a.left;
                buffered = λ h. b;
                tolerated = λ h. ground (arith, e);
                closed = λ h. absurd (ground (arith, h, live));
              }
      ]

pub switch_to_tcp-IsBounded :
    (d : Driver) (framed_query : Text) (now_ms : ℕ)
    → IsActive d
    → d.invalid_replies < d.config.max_invalid_replies
    → IsBounded (switch_to_tcp d framed_query now_ms).1
unfolding switch_to_tcp close
switch_to_tcp-IsBounded d framed_query now_ms a t = record {
  attempts = omega (arith, a.left);
  within = ground arith;
  offset = omega arith;
  left = λ h. a.left;
  buffered = λ h. omega arith;
  tolerated = λ h. t;
  closed = λ h. refl;
}
