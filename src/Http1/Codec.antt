-- ===== src/Http1/Codec.antt =====
-- `feed` and `eof` of `Http1ServerCodec` of pcc_gateway/http1.py.
use pcc_gateway.Prelude.{
  ℕ, zero, suc, ◌*◌, true, List, [], ◌∷◌, ◌++◌, Text, ◌==◌, if◌then◌else◌, length, ℤ, pos, negsuc,
  Result, ok, err,
}
use pcc_gateway.Buffer.Segment.{BufferError}
use pcc_gateway.Buffer.View.{Heap}
use pcc_gateway.Http1.Error.{
  Raised, http1_error, value_error, buffer_error, out_of_fuel, Code, connection_closed,
  incomplete_request,
}
use pcc_gateway.Http1.State.{
  release_chunk, Event, body, head, Codec, Feed, Turn, more, done, failed,
}
use pcc_gateway.Http1.Steps.{step}

unfoldable pub feed_loop : ℕ → ℕ → Feed → Turn
feed_loop zero max f = failed out_of_fuel f
feed_loop (suc n) max f = elim (step max f) [
  | more f' ↦ feed_loop n max f'
  | done f' ↦ done f'
  | failed e f' ↦ failed e f'
]

-- A round that goes on takes bytes off the buffer, or leaves the fixed-body state.
abbrev pub feed_fuel : Text → ℕ
feed_fuel buffer = suc (suc (2 * length buffer))

-- `_feed_pending`
unfoldable pub feed_pending : Text → ℤ → Codec → Heap → Turn
unfolding feed_loop
feed_pending bytes (negsuc n) c h =
    failed value_error (record { codec = c; events = []; heap = h; completed = 0 })
feed_pending bytes (pos max) c h =
    let c' = record c { buffer = c.buffer ++ bytes } in
    if c.closed
    then failed (http1_error 400 connection_closed)
        (record { codec = c; events = []; heap = h; completed = 0 })
    else feed_loop (feed_fuel c'.buffer) max
        (record { codec = c'; events = []; heap = h; completed = 0 })

-- The clean-up of `feed`: each body chunk that was not handed over is released.
unfoldable pub release_events : List Event → Heap → Result BufferError Heap
unfolding release_chunk
release_events [] h = ok h
release_events (body chunk ∷ events) h = elim (release_chunk chunk h) [
  | err e ↦ err e
  | ok (_, _, h') ↦ release_events events h'
]
release_events (_ ∷ events) h = release_events events h

-- What a call of `feed` leaves: the decoder, the heap, and the events or the error.
pub record Fed : Type 0 where
  pub codec : Codec
  pub heap : Heap
  pub result : Result Raised (List Event)

unfoldable pub clean_up : ℕ → Code → Feed → Fed
unfolding release_events
clean_up status code f = elim (release_events f.events f.heap) [
  | err e ↦ record { codec = f.codec; heap = f.heap; result = err (buffer_error e) }
  | ok h ↦ record { codec = f.codec; heap = h; result = err (http1_error status code) }
]

-- Only an `Http1Error` is caught.
unfoldable pub finish : Turn → Fed
unfolding clean_up
finish (more f) = record { codec = f.codec; heap = f.heap; result = err out_of_fuel }
finish (done f) = record { codec = f.codec; heap = f.heap; result = ok f.events }
finish (failed (http1_error status code) f) = clean_up status code f
finish (failed e f) = record { codec = f.codec; heap = f.heap; result = err e }

unfoldable pub feed : Text → ℤ → Codec → Heap → Fed
unfolding finish feed_pending
feed bytes max c h = finish (feed_pending bytes max c h)

-- `eof` closes the decoder whatever it returns.
unfoldable pub eof : Codec → Codec × Result Raised (Unit {0})
eof c = (
  record c { closed = true },
  elim c.state [
    | head ↦ if length c.buffer == 0 then ok tt else err (http1_error 400 incomplete_request)
    | _ ↦ err (http1_error 400 incomplete_request)
  ],
)
