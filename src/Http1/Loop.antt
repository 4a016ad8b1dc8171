-- ===== src/Http1/Loop.antt =====
-- `feed` of pcc_gateway/http1.py: its end, its counters and its buffer.
use pcc_gateway.Prelude.{
  ℕ, zero, suc, ◌+◌, ◌*◌, ◌≤◌, ◌<◌, ◌≡◌, ◌≢◌, refl, Bool, true, false, List, [], ◌++◌,
  if◌then◌else◌, inl, inr, Text, length, pos, ok, err, arith, Result-cases,
}
use pcc_gateway.Buffer.View.{Heap}
use pcc_gateway.Http1.Error.{http1_error, value_error, buffer_error, out_of_fuel, connection_closed}
use pcc_gateway.Http1.State.{
  Event, State, head, fixed_body, chunk_size, chunk_data, trailers, Codec, Feed, Turn, more, done,
  failed,
}
use pcc_gateway.Http1.Steps.{step}
use pcc_gateway.Http1.Codec.{
  feed_loop, feed_fuel, feed_pending, feed, Fed, finish, clean_up, release_events,
}
use pcc_gateway.Http1.Invariant.{measure, SoundIn, IsSound, IsBounded, SameLimits, Good}
use pcc_gateway.Http1.Rounds.{step-Good}

-- A call that returns events leaves a sound decoder; no call runs out of fuel.
abbrev pub Ended : ℕ → Codec → Turn → Type 0
Ended max c (more f) = ⊥
Ended max c (done f) = IsSound f.codec × SameLimits c f.codec × (max ≡ 0 → IsBounded f.codec)
Ended max c (failed e f) = e ≢ out_of_fuel

is_fixed_le : (f : Feed) → measure f ≤ 2 * length f.codec.buffer + 1
is_fixed_le f = ground arith

fuel_suffices : (f : Feed) → measure f < feed_fuel f.codec.buffer
fuel_suffices f = omega (arith, is_fixed_le f)

SameLimits-trans : {c d e : Codec} → SameLimits c d → SameLimits d e → SameLimits c e
SameLimits-trans h k = ground arith

Ended-from : (max : ℕ) {c d : Codec} (t : Turn) → SameLimits c d → Ended max d t → Ended max c t
Ended-from max (more f) h k = k
Ended-from max (done f) h k = (k.0, SameLimits-trans h k.1, k.2)
Ended-from max (failed e f) h k = k

feed_loop-Ended :
    (n max : ℕ) (f : Feed) → measure f < n → IsSound f.codec → Ended max f.codec (feed_loop n max f)
unfolding feed_loop
feed_loop-Ended zero max f h s = absurd (omega arith)
feed_loop-Ended (suc n) max f h s = go (feed_loop-Ended n max) (step max f) refl (step-Good max f s)
  where
    go :
        ((g : Feed) → measure g < n → IsSound g.codec → Ended max g.codec (feed_loop n max g))
        → (t : Turn) → step max f ≡ t
        → Good max (measure f) f.codec t
        → Ended max f.codec (feed_loop (suc n) max f)
    go ih (more f') e g =
        rw (e, feed_loop) (Ended-from max (feed_loop n max f') g.2 (ih f' (omega arith) g.1))
    go ih (done f') e g = rw (e, feed_loop) g
    go ih (failed x f') e g = rw (e, feed_loop) g

SoundIn-buffer :
    (s : State) (c : Codec) (bytes : Text) → SoundIn s c → SoundIn s (record c { buffer = bytes })
SoundIn-buffer head c bytes h = h
SoundIn-buffer fixed_body c bytes h = h
SoundIn-buffer chunk_size c bytes h = h
SoundIn-buffer chunk_data c bytes h = h
SoundIn-buffer trailers c bytes h = h

-- The decoder with the new bytes, before the first round.
abbrev supplied : Text → Codec → Heap → Feed
supplied bytes c h = record {
  codec = record c { buffer = c.buffer ++ bytes };
  events = [];
  heap = h;
  completed = 0;
}

pub feed_pending-Ended :
    (bytes : Text) (max : ℕ) (c : Codec) (h : Heap)
    → IsSound c
    → Ended max c (feed_pending bytes (pos max) c h)
unfolding feed_pending
feed_pending-Ended bytes max c h s =
    let same : SameLimits c (supplied bytes c h).codec = record {
      request_line = refl;
      header_bytes = refl;
      header_count = refl;
      body_bytes = refl;
      chunk_bytes = refl;
    } in
    let run = feed_loop (feed_fuel (c.buffer ++ bytes)) max (supplied bytes c h) in
    let ended = Ended-from max run same (
      feed_loop-Ended (feed_fuel (c.buffer ++ bytes)) max (supplied bytes c h)
        (fuel_suffices (supplied bytes c h)) (SoundIn-buffer c.state c (c.buffer ++ bytes) s)) in
    go c.closed ended
  where
    go :
        (b : Bool)
        → Ended max c (feed_loop (feed_fuel (c.buffer ++ bytes)) max (supplied bytes c h))
        → Ended max c (
            if b
            then failed
                (http1_error 400 connection_closed)
                (record { codec = c; events = []; heap = h; completed = 0 })
            else feed_loop (feed_fuel (c.buffer ++ bytes)) max (supplied bytes c h))
    go true k = λ p. cc
    go false k = k

-- What `feed` leaves.
abbrev FedWell : ℕ → Codec → Fed → Type 0
FedWell max c r =
    (r.result ≢ err out_of_fuel)
    × ((events : List Event)
        → r.result ≡ ok events
        → IsSound r.codec × SameLimits c r.codec × (max ≡ 0 → IsBounded r.codec))

finish-FedWell : (max : ℕ) (c : Codec) (t : Turn) → Ended max c t → FedWell max c (finish t)
unfolding finish
finish-FedWell max c (more f) e = absurd e
finish-FedWell max c (done f) e = (λ p. cc, λ events p. e)
finish-FedWell max c (failed (http1_error status code) f) e =
    elim (Result-cases (release_events f.events f.heap)) [
      | inl (h, p) ↦ rw (p, clean_up) (λ q. cc, λ events q. absurd (cc))
      | inr (x, p) ↦ rw (p, clean_up) (λ q. cc, λ events q. absurd (cc))
    ]
finish-FedWell max c (failed value_error f) e = (λ p. cc, λ events p. absurd (cc))
finish-FedWell max c (failed (buffer_error x) f) e = (λ p. cc, λ events p. absurd (cc))
finish-FedWell max c (failed out_of_fuel f) e = absurd (e refl)

-- From a decoder whose counters are in their limits, every call of `feed` ends; if it returns events,
-- the counters are in the same limits again, and without a limit on the messages the decoder holds
-- back no more bytes than its state allows: a head's or a trailer's limit, 128 bytes of a chunk line, or
-- one chunk and the first byte of its line end.
pub feed-IsBounded :
    (bytes : Text) (max : ℕ) (c : Codec) (h : Heap)
    → IsSound c
    → ((feed bytes (pos max) c h).result ≢ err out_of_fuel)
      × ((events : List Event)
          → (feed bytes (pos max) c h).result ≡ ok events
          → IsSound (feed bytes (pos max) c h).codec
            × SameLimits c (feed bytes (pos max) c h).codec
            × (max ≡ 0 → IsBounded (feed bytes (pos max) c h).codec))
unfolding feed
feed-IsBounded bytes max c h s =
    finish-FedWell max c (feed_pending bytes (pos max) c h) (feed_pending-Ended bytes max c h s)
