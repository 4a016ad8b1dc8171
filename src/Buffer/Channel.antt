-- ===== src/Buffer/Channel.antt =====
-- `ChannelBuffer` of pcc_gateway/buffer.py: a bounded queue of bytes with high and low watermarks.
use pcc_gateway.Prelude.{
  ℕ, zero, suc, ◌+◌, ◌-◌, ◌*◌, Bool, true, false, not, ◌&&◌, List, [], ◌∷◌, ◌++◌, Text, ltb, leb,
  if◌then◌else◌, length, take, drop, ℤ, pos, negsuc, leb_ℤ, ltb_ℤ, Result, ok, err, ◌>>=◌,
}
use pcc_gateway.Buffer.Segment.{
  BufferError, closed_error, limit_error, value_error, index_error, out_of_fuel,
}
use pcc_gateway.Buffer.View.{Heap, BufferView, len, to_bytes, slice_view, release_view, owned_view}

-- BACKPRESSURE_NONE, BACKPRESSURE_HIGH and BACKPRESSURE_LOW
pub data Backpressure : Type 0 where
  none high low : Backpressure

pub record ChannelBuffer : Type 0 where
  pub segment_size : ℕ
  pub low_watermark : ℕ
  pub high_watermark : ℕ
  pub max_bytes : ℕ
  pub views : List BufferView
  pub head : ℕ
  pub head_offset : ℕ
  pub queued_bytes : ℕ
  pub backpressured : Bool
  pub closed : Bool

unfoldable pub fresh_channel : ℤ → ℤ → ℤ → ℤ → Result BufferError ChannelBuffer
fresh_channel (pos segment_size) (pos low_mark) (pos high_mark) (pos max) = ok (record {
  segment_size = segment_size;
  low_watermark = low_mark;
  high_watermark = high_mark;
  max_bytes = max;
  views = [];
  head = 0;
  head_offset = 0;
  queued_bytes = 0;
  backpressured = false;
  closed = false;
})
fresh_channel _ _ _ _ = err value_error

-- The checks leave no negative number, so the last clause of `fresh_channel` is never reached.
unfoldable pub new_channel : ℤ → ℤ → ℤ → ℤ → Result BufferError ChannelBuffer
unfolding fresh_channel
new_channel segment_size low_mark high_mark max =
    if leb_ℤ segment_size (pos 0)
    then err value_error
    else if ltb_ℤ low_mark (pos 0)
    then err value_error
    else if leb_ℤ high_mark low_mark
    then err value_error
    else if ltb_ℤ max high_mark
    then err value_error
    else fresh_channel segment_size low_mark high_mark max

unfoldable pub transition_after_growth : ChannelBuffer → ChannelBuffer × Backpressure
transition_after_growth c =
    if not c.backpressured && leb c.high_watermark c.queued_bytes
    then (record c { backpressured = true }, high)
    else (c, none)

unfoldable pub transition_after_drain : ChannelBuffer → ChannelBuffer × Backpressure
transition_after_drain c =
    if c.backpressured && leb c.queued_bytes c.low_watermark
    then (record c { backpressured = false }, low)
    else (c, none)

abbrev pub Effect : Type 0 → Type 0
Effect A = Result BufferError (A × ChannelBuffer × Heap)

-- The segments that `append` fills, from `offset` on, behind the views that are there.
unfoldable pub append_loop :
    ℕ → ℕ → Text → ℕ → List BufferView → Heap → Result BufferError (List BufferView × Heap)
append_loop zero segment_size source offset views h =
    if ltb offset (length source) then err out_of_fuel else ok (views, h)
append_loop (suc n) segment_size source offset views h =
    let remaining = length source - offset in
    let capacity = if ltb remaining segment_size then remaining else segment_size in
    let round : Result BufferError (List BufferView × Heap) =
      elim (owned_view (pos capacity) source (pos offset) (pos remaining) h) [
        | err e ↦ err e
        | ok (view, written, h') ↦
            append_loop n segment_size source (offset + written) (views ++ view ∷ []) h'
      ] in
    if ltb offset (length source) then round else ok (views, h)

unfoldable pub grown :
    ChannelBuffer → List BufferView → ℕ → Heap → Backpressure × ChannelBuffer × Heap
unfolding transition_after_growth
grown c views added h =
    let (c', event) =
      transition_after_growth (record c { views = views; queued_bytes = c.queued_bytes + added }) in
    (event, c', h)

-- Each round writes a byte at least, so as many rounds as there are bytes are enough.
unfoldable pub append : Text → ChannelBuffer → Heap → Effect Backpressure
unfolding grown
append source c h =
    if c.closed
    then err closed_error
    else if ltb c.max_bytes (c.queued_bytes + length source)
    then err limit_error
    else do
      filled ← append_loop (length source) c.segment_size source 0 c.views h
      ok (grown c filled.0 (length source) filled.1)

unfoldable pub append_view : BufferView → ChannelBuffer → Heap → Effect Backpressure
unfolding grown
append_view view c h =
    if c.closed
    then err closed_error
    else if ltb c.max_bytes (c.queued_bytes + len view)
    then err limit_error
    else do
      sliced ← slice_view view (pos 0) (negsuc 0) h
      ok (grown c (c.views ++ sliced.0 ∷ []) (len view) sliced.1)

-- `len(view) - local_offset`; an offset past the end would be a negative count.
unfoldable pub peek_loop :
    List BufferView → ℕ → ℕ → Heap → Result BufferError (List BufferView × Heap)
peek_loop [] offset remaining h = ok ([], h)
peek_loop (v ∷ vs) offset zero h = ok ([], h)
peek_loop (v ∷ vs) offset (suc r) h =
    let available = len v - offset in
    let count = if ltb (suc r) available then suc r else available in
    do
      part ← slice_view v (pos offset) (pos count) h
      rest ← peek_loop vs 0 (suc r - count) part.1
      ok (part.0 ∷ rest.0, rest.1)

unfoldable pub wanted : ChannelBuffer → ℤ → ℕ
wanted c (negsuc n) = c.queued_bytes
wanted c (pos n) = if ltb n c.queued_bytes then n else c.queued_bytes

unfoldable pub peek_views : ℤ → ChannelBuffer → Heap → Result BufferError (List BufferView × Heap)
unfolding wanted peek_loop
peek_views limit c h = peek_loop (drop c.head c.views) c.head_offset (wanted c limit) h

-- What the loop of `consume` leaves of the views from the head on: the released ones, then the rest.
pub record Consumed : Type 0 where
  pub views : List BufferView
  pub released : ℕ
  pub offset : ℕ
  pub heap : Heap

unfoldable pub consume_loop : List BufferView → ℕ → ℕ → Heap → Result BufferError Consumed
consume_loop vs offset zero h = ok (record { views = vs; released = 0; offset = offset; heap = h })
consume_loop [] offset (suc r) h = err index_error
consume_loop (v ∷ vs) offset (suc r) h =
    let available = len v - offset in
    let next : Result BufferError Consumed = elim (release_view v h) [
      | err e ↦ err e
      | ok (v', _, h') ↦ elim (consume_loop vs 0 (suc r - available) h') [
        | err e ↦ err e
        | ok k ↦ ok (record k { views = v' ∷ k.views; released = suc k.released })
      ]
    ] in
    if ltb (suc r) available
    then ok (record { views = v ∷ vs; released = 0; offset = offset + suc r; heap = h })
    else next

-- The views before the head are dropped once there are many of them.
unfoldable pub compact : ChannelBuffer → ChannelBuffer
compact c =
    if ltb 32 c.head && leb (length c.views) (c.head * 2)
    then record c { views = drop c.head c.views; head = 0 }
    else c

unfoldable pub consume_at : ℕ → ChannelBuffer → Heap → Effect Backpressure
unfolding consume_loop compact transition_after_drain
consume_at count c h = do
  k ← consume_loop (drop c.head c.views) c.head_offset count h
  let c' = compact (record c {
    views = take c.head c.views ++ k.views;
    head = c.head + k.released;
    head_offset = k.offset;
    queued_bytes = c.queued_bytes - count;
  })
  let drained = transition_after_drain c'
  ok (drained.1, drained.0, k.heap)

unfoldable pub consume : ℤ → ChannelBuffer → Heap → Effect Backpressure
unfolding consume_at
consume (negsuc n) c h = err value_error
consume (pos n) c h = if ltb c.queued_bytes n then err value_error else consume_at n c h

-- `output.extend(part.to_bytes()); part.release()`
unfoldable pub gather_loop : List BufferView → Heap → Result BufferError (Text × Heap)
gather_loop [] h = ok ([], h)
gather_loop (v ∷ vs) h = do
  bytes ← to_bytes v h
  released ← release_view v h
  rest ← gather_loop vs released.2
  ok (bytes ++ rest.0, rest.1)

unfoldable pub read : ℤ → ChannelBuffer → Heap → Effect Text
unfolding wanted
read limit c h = do
  let count = wanted c limit
  parts ← peek_views (pos count) c h
  output ← gather_loop parts.0 parts.1
  consumed ← consume (pos count) c output.1
  ok (output.0, consumed.1, consumed.2)

-- Releases what is not released yet, and counts it.
unfoldable pub close_loop : List BufferView → Heap → Result BufferError (ℕ × Heap)
close_loop [] h = ok (0, h)
close_loop (v ∷ vs) h =
    let skip = close_loop vs h in
    let next : Result BufferError (ℕ × Heap) = elim (release_view v h) [
      | err e ↦ err e
      | ok (_, _, h') ↦ elim (close_loop vs h') [
        | err e ↦ err e
        | ok (count, h'') ↦ ok (suc count, h'')
      ]
    ] in
    if v.released then skip else next

unfoldable pub close : ChannelBuffer → Heap → Effect ℕ
unfolding close_loop
close c h = if c.closed then ok (0, c, h) else do
  freed ← close_loop (drop c.head c.views) h
  ok (
    freed.0,
    record c {
      views = [];
      head = 0;
      head_offset = 0;
      queued_bytes = 0;
      backpressured = false;
      closed = true;
    },
    freed.1,
  )
