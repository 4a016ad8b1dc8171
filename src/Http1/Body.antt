-- ===== src/Http1/Body.antt =====
-- `BodyChunk` of pcc_gateway/http1.py: its construction and its release.
use pcc_gateway.Prelude.{ℕ, ◌<◌, ◌≡◌, refl, true, false, [], ◌∷◌, Text, length, ok, arith}
use pcc_gateway.Buffer.View.{Heap, update}
use pcc_gateway.Buffer.Segment.{Segment}
use pcc_gateway.Buffer.Owned.{Placed, whole_view, filled, write_all, place}
use pcc_gateway.Http1.State.{BodyChunk, body_chunk, release_chunk}

abbrev pub whole_chunk : ℕ → Text → BodyChunk
whole_chunk owner bytes = record { view = whole_view owner bytes; released = false }

-- A chunk of bytes is one new segment with the chunk's view as its one owner.
pub body_chunk_lem :
    (bytes : Text) (h : Heap)
    → 0 < length bytes
    → (h' : Heap) × (body_chunk bytes h ≡ ok (whole_chunk h.next bytes, h')) × Placed h bytes h'
unfolding body_chunk
body_chunk_lem [] h p = absurd (omega arith)
body_chunk_lem (c ∷ cs) h p =
    let (h1, h2, viewed, dropped, placed) = place h (c ∷ cs) (length (c ∷ cs)) refl in
    (h2, rw (write_all (c ∷ cs)) (rw viewed (rw dropped)), placed)

-- Releasing a chunk that nobody else retains frees its segment.
pub release_chunk_lem :
    (o : ℕ) (bytes : Text) (h : Heap)
    → h.cell o ≡ filled bytes 1
    → (s : Segment) × (release_chunk (whole_chunk o bytes) h
        ≡ ok (
          1,
          record {
            view = record (whole_view o bytes) { length = 0; released = true };
            released = true;
          },
          update h o s,
        ))
      × (s.released ≡ true)
unfolding release_chunk
release_chunk_lem o bytes h e = (
  record (filled bytes 1) { bytes = []; start = 0; end = 0; references = 0; released = true },
  rw e refl,
  refl,
)
