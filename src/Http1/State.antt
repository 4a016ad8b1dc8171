-- ===== src/Http1/State.antt =====
-- The state of `Http1ServerCodec` of pcc_gateway/http1.py, its events, and `BodyChunk`. The body
-- chunks of the events own segments on the heap of Buffer/View.
use pcc_gateway.Prelude.{
  ℕ, suc, Bool, true, false, ◌||◌, List, [], Text, if◌then◌else◌, is_empty, length, ℤ, pos, negsuc,
  leb_ℤ, Result, ok, err, ◌>>=◌,
}
use pcc_gateway.Buffer.Segment.{BufferError, new_segment, write}
use pcc_gateway.Buffer.View.{Heap, alloc, BufferView, view_segment, release_segment, release_view}
use pcc_gateway.Http1.Error.{Raised, value_error}
use pcc_gateway.Http1.Head.{Headers, RequestHead}

pub record BodyChunk : Type 0 where
  pub view : BufferView
  pub released : Bool

-- `BodyChunk(data)` of bytes: a segment of its own, which the view owns alone.
unfoldable pub body_chunk : Text → Heap → Result BufferError (BodyChunk × Heap)
unfolding new_segment write view_segment release_segment
body_chunk bytes h = do
  segment ← new_segment (pos (if is_empty bytes then 1 else length bytes))
  written ← write segment bytes (pos 0) (negsuc 0)
  let placed = alloc h written.0
  viewed ← view_segment placed.0 (pos 0) (pos (length bytes)) placed.1
  dropped ← release_segment placed.0 viewed.1
  ok (record { view = viewed.0; released = false }, dropped.1)

-- `BodyChunk.release`
unfoldable pub release_chunk : BodyChunk → Heap → Result BufferError (ℕ × BodyChunk × Heap)
unfolding release_view
release_chunk c h = if c.released then ok (0, c, h) else elim (release_view c.view h) [
  | err e ↦ err e
  | ok (view, freed, h') ↦ ok (freed, record { view = view; released = true }, h')
]

pub data Event : Type 0 where
  request_head : RequestHead → Event
  body : BodyChunk → Event
  request_end : Headers → Event

pub data State : Type 0 where
  head fixed_body chunk_size chunk_data trailers : State

-- The limits, `buffer`, `state`, `remaining`, `body_received` and `closed`.
pub record Codec : Type 0 where
  pub max_request_line : ℕ
  pub max_header_bytes : ℕ
  pub max_header_count : ℕ
  pub max_body_bytes : ℕ
  pub max_chunk_bytes : ℕ
  pub buffer : Text
  pub state : State
  pub remaining : ℕ
  pub body_received : ℕ
  pub closed : Bool

unfoldable pub fresh_codec : ℤ → ℤ → ℕ → ℕ → ℕ → Result Raised Codec
fresh_codec (pos line) (pos bytes) count body_bytes chunk_bytes = ok (record {
  max_request_line = line;
  max_header_bytes = bytes;
  max_header_count = count;
  max_body_bytes = body_bytes;
  max_chunk_bytes = chunk_bytes;
  buffer = [];
  state = head;
  remaining = 0;
  body_received = 0;
  closed = false;
})
fresh_codec _ _ _ _ _ = err value_error

-- The constructor checks the first two limits.
unfoldable pub new_codec : ℤ → ℤ → ℕ → ℕ → ℕ → Result Raised Codec
unfolding fresh_codec
new_codec line bytes count body_bytes chunk_bytes =
    if leb_ℤ line (pos 0) || leb_ℤ bytes (pos 0)
    then err value_error
    else fresh_codec line bytes count body_bytes chunk_bytes

unfoldable pub reset_message : Codec → Codec
reset_message c = record c { state = head; remaining = 0; body_received = 0 }

-- The end of `_parse_head`: the state that a head's framing asks for, and whether a body follows.
unfoldable pub begin_fixed : ℤ → Codec → Codec × Bool
unfolding reset_message
begin_fixed (pos (suc n)) c = (record c { state = fixed_body; remaining = suc n }, true)
begin_fixed _ c = (reset_message c, false)

unfoldable pub begin_body : RequestHead → Codec → Codec × Bool
unfolding begin_fixed
begin_body r c =
    if r.chunked then (record c { state = chunk_size }, true) else begin_fixed r.content_length c

-- The decoder, the events so far and the heap, between two rounds of the loop of `_feed_pending`.
pub record Feed : Type 0 where
  pub codec : Codec
  pub events : List Event
  pub heap : Heap
  pub completed : ℕ

-- A round goes on, breaks off the loop, or raises.
pub data Turn : Type 0 where
  more done : Feed → Turn
  failed : Raised → Feed → Turn
