-- ===== src/Http1/Invariant.antt =====
-- The invariant of the decoder: what each round of the loop of `_feed_pending` keeps, what bounds the
-- buffer when the loop stops, and why it stops: a round that goes on takes bytes off the buffer, or
-- leaves the fixed-body state.
use pcc_gateway.Prelude.{
  ℕ, suc, ◌+◌, ◌*◌, ◌≤◌, ◌<◌, ◌≡◌, ◌≢◌, [], ◌∷◌, Option, none, some, Text, length, arith,
}
use pcc_gateway.Buffer.View.{Heap}
use pcc_gateway.Http1.Error.{out_of_fuel}
use pcc_gateway.Http1.Bytes.{find_double_crlf, find_crlf, later}
use pcc_gateway.Http1.Head.{RequestHead}
use pcc_gateway.Buffer.Owned.{Placed}
use pcc_gateway.Http1.State.{
  Event, body, State, head, fixed_body, chunk_size, chunk_data, trailers, Codec, begin_body, Feed,
  Turn, more, done, failed,
}
use pcc_gateway.Http1.Steps.{complete, begin_message, with_chunk, emit}
use pcc_gateway.Http1.Framing.{LengthFits}
use pcc_gateway.Http1.Body.{whole_chunk, body_chunk_lem}

-- A marker of `k` bytes that is found lies inside.
abbrev pub Fits : ℕ → ℕ → Option ℕ → Type 0
Fits k n none = Unit
Fits k n (some i) = i + k ≤ n

later-Fits : (k n : ℕ) (o : Option ℕ) → Fits k n o → Fits k (suc n) (later o)
later-Fits k n none h = tt
later-Fits k n (some i) h = omega arith

pub find_crlf-Fits : (t : Text) → Fits 2 (length t) (find_crlf t)
unfolding find_crlf
find_crlf-Fits [] = tt
find_crlf-Fits (a ∷ []) = tt
find_crlf-Fits (a ∷ b ∷ rest) =
    ground
      (arith, later-Fits 2 (length (b ∷ rest)) (find_crlf (b ∷ rest)) (find_crlf-Fits (b ∷ rest)))

pub find_double_crlf-Fits : (t : Text) → Fits 4 (length t) (find_double_crlf t)
unfolding find_double_crlf
find_double_crlf-Fits [] = tt
find_double_crlf-Fits (a ∷ []) = tt
find_double_crlf-Fits (a ∷ b ∷ []) = tt
find_double_crlf-Fits (a ∷ b ∷ c ∷ []) = tt
find_double_crlf-Fits (a ∷ b ∷ c ∷ d ∷ rest) = ground (
  arith,
  later-Fits 4 (length (b ∷ c ∷ d ∷ rest)) (find_double_crlf (b ∷ c ∷ d ∷ rest))
      (find_double_crlf-Fits (b ∷ c ∷ d ∷ rest)),
)

abbrev is_fixed : State → ℕ
is_fixed fixed_body = 1
is_fixed _ = 0

abbrev pub measure : Feed → ℕ
measure f = 2 * length f.codec.buffer + is_fixed f.codec.state

-- The counters of a decoder that is in a state.
abbrev pub SoundIn : State → Codec → Type 0
SoundIn head c = (c.remaining ≡ 0) × (c.body_received ≡ 0)
SoundIn fixed_body c = (0 < c.remaining) × (c.body_received + c.remaining ≤ c.max_body_bytes)
SoundIn chunk_size c = (c.remaining ≡ 0) × (c.body_received ≤ c.max_body_bytes)
SoundIn chunk_data c =
    (0 < c.remaining)
    × (c.remaining ≤ c.max_chunk_bytes)
    × (c.body_received + c.remaining ≤ c.max_body_bytes)
SoundIn trailers c = (c.remaining ≡ 0) × (c.body_received ≤ c.max_body_bytes)

abbrev pub IsSound : Codec → Type 0
IsSound c = SoundIn c.state c

-- How many bytes a decoder may hold back, waiting for more.
abbrev pub BoundedIn : State → Codec → Type 0
BoundedIn head c = length c.buffer ≤ c.max_header_bytes
BoundedIn fixed_body c = length c.buffer ≤ 0
BoundedIn chunk_size c = length c.buffer ≤ 128
BoundedIn chunk_data c = length c.buffer ≤ c.max_chunk_bytes + 1
BoundedIn trailers c = length c.buffer ≤ c.max_header_bytes

abbrev pub IsBounded : Codec → Type 0
IsBounded c = BoundedIn c.state c

-- The limits never change.
pub record SameLimits (c d : Codec) : Type 0 where
  pub request_line : d.max_request_line ≡ c.max_request_line
  pub header_bytes : d.max_header_bytes ≡ c.max_header_bytes
  pub header_count : d.max_header_count ≡ c.max_header_count
  pub body_bytes : d.max_body_bytes ≡ c.max_body_bytes
  pub chunk_bytes : d.max_chunk_bytes ≡ c.max_chunk_bytes

-- What a round does from a decoder `c` with `n` for its measure, under a limit of `max` messages.
abbrev pub Good : ℕ → ℕ → Codec → Turn → Type 0
Good max n c (more f) = (measure f < n) × IsSound f.codec × SameLimits c f.codec
Good max n c (done f) = IsSound f.codec × SameLimits c f.codec × (max ≡ 0 → IsBounded f.codec)
Good max n c (failed e f) = e ≢ out_of_fuel

pub complete-Good :
    (max n : ℕ) (c : Codec) (f : Feed)
    → measure f < n
    → IsSound f.codec
    → SameLimits c f.codec
    → Good max n c (complete max f)
unfolding complete
complete-Good max n c f h s l = ground arith

pub begin_message-Good :
    (max n : ℕ) (c : Codec) (r : RequestHead) (f : Feed)
    → 2 * length f.codec.buffer + 1 < n
    → SoundIn head f.codec
    → LengthFits f.codec.max_body_bytes r.content_length
    → SameLimits c f.codec
    → Good max n c (begin_message max r f)
unfolding begin_message begin_body
begin_message-Good max n c r f h s fits l = ground arith

-- The rest of a round after a chunk of a body is taken from the buffer.
pub with_chunk_lem :
    (bytes : Text) (f : Feed) (k : Feed → Turn)
    → 0 < length bytes
    → (h : Heap) × (with_chunk bytes f k
        ≡ k (emit (body (whole_chunk f.heap.next bytes)) (record f { heap = h })))
      × Placed f.heap bytes h
unfolding with_chunk
with_chunk_lem bytes f k p =
    let (h, made, placed) = body_chunk_lem bytes f.heap p in (h, rw (made, with_chunk), placed)

-- A round that takes a chunk is as good as its rest, whatever heap the chunk leaves.
pub with_chunk-Good :
    (max n : ℕ) (c : Codec) (bytes : Text) (f : Feed) (k : Feed → Turn)
    → 0 < length bytes
    → ((e : Event) (h : Heap) → Good max n c (k (emit e (record f { heap = h }))))
    → Good max n c (with_chunk bytes f k)
with_chunk-Good max n c bytes f k p rest =
    let (h, e, placed) = with_chunk_lem bytes f k p in rw (e, Good) (rest _ h)
