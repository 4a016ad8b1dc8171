-- ===== src/Buffer/Owned.antt =====
-- A segment that is filled once and handed to one view: the steps of `ChannelBuffer.append` and of
-- `BodyChunk`.
use mathlib.Core.List.{append-nil}
use pcc_gateway.Prelude.{
  ℕ, zero, suc, ◌+◌, ◌≤◌, ◌<◌, ◌≡◌, ◌≢◌, refl, ◌∙◌, false, Text, length, drop, replicate, slice,
  length-replicate, length-take, length-drop, drop-all, take-all, pos, negsuc, ok, ==_refl, arith,
}
use pcc_gateway.Buffer.Segment.{copy_loop, Segment, new_segment, write}
use pcc_gateway.Buffer.View.{
  Heap, BufferView, update, alloc, view_segment, release_segment, owned_view,
}
use pcc_gateway.Buffer.Copy.{copy_loop_lem}

abbrev pub filled : Text → ℕ → Segment
filled bytes references = record {
  capacity = length bytes;
  bytes = bytes;
  start = 0;
  end = length bytes;
  references = references;
  released = false;
}

abbrev pub whole_view : ℕ → Text → BufferView
whole_view owner bytes = record {
  owner = owner;
  start = 0;
  length = length bytes;
  released = false;
}

-- `h'` is `h` with one segment more, which holds `bytes` and has one owner.
pub record Placed (h : Heap) (bytes : Text) (h' : Heap) : Type 0 where
  pub next : h'.next ≡ h.next + 1
  pub placed : h'.cell h.next ≡ filled bytes 1
  pub others : (o : ℕ) → h.next ≢ o → h'.cell o ≡ h.cell o

abbrev pub blank : ℕ → Segment
blank n = record {
  capacity = n;
  bytes = replicate n 0;
  start = 0;
  end = 0;
  references = 1;
  released = false;
}

length-slice :
    (offset count : ℕ) (source : Text)
    → offset + count ≤ length source
    → length (slice offset count source) ≡ count
length-slice offset count source h =
    omega (arith, length-take count (drop offset source), length-drop offset source)

copy_blank :
    (n offset : ℕ) (source : Text)
    → offset + n ≤ length source
    → copy_loop n 0 offset (replicate n 0) source ≡ slice offset n source
copy_blank n offset source h =
    copy_loop_lem n 0 offset (replicate n 0) source (omega (arith, length-replicate {A = ℕ} n 0)) h
    ∙ rw (drop-all (0 + n) (replicate {A = ℕ} n 0) (omega (arith, length-replicate {A = ℕ} n 0)))
        (append-nil _)

-- A blank segment of `n` bytes takes `n` bytes of a longer source.
write-blank :
    (n offset count : ℕ) (source : Text)
    → n ≤ count
    → offset + count ≤ length source
    → write (blank n) source (pos offset) (pos count) ≡ ok (filled (slice offset n source) 1, n)
unfolding write
write-blank n offset count source h k =
    ground
      (arith, copy_blank n offset source (omega arith), length-slice offset n source (omega arith))

-- All of a text, into a segment of its size.
pub write_all :
    (bytes : Text)
    → write (blank (length bytes)) bytes (pos 0) (negsuc 0) ≡ ok (filled bytes 1, length bytes)
unfolding write
write_all bytes =
    ground (arith, copy_blank (length bytes) 0 bytes (omega arith), take-all (length bytes) bytes)

-- The view of a filled segment, once the segment's own reference is dropped.
pub place :
    (h : Heap) (bytes : Text) (size : ℕ)
    → length bytes ≡ size
    → (h' : Heap) × (h'' : Heap) × (view_segment h.next
          (pos 0)
          (pos size)
          (alloc h (filled bytes 1)).1
        ≡ ok (whole_view h.next bytes, h'))
      × (release_segment h.next h' ≡ ok (0, h''))
      × Placed h bytes h''
unfolding view_segment release_segment
place h bytes size e =
    let h1 = (alloc h (filled bytes 1)).1 in
    let h2 = update h1 h.next (filled bytes 2) in
    let h3 = update h2 h.next (filled bytes 1) in
    (
      h2,
      h3,
      ground arith,
      ground arith,
      record { next = refl; placed = rw ==_refl; others = λ o n. ground arith },
    )

-- The steps of `ChannelBuffer.append` for one segment succeed, and hand over the bytes asked for.
pub owned_view_lem :
    (n offset count : ℕ) (source : Text) (h : Heap)
    → 0 < n
    → n ≤ count
    → offset + count ≤ length source
    → (h' : Heap) × (owned_view (pos n) source (pos offset) (pos count) h
        ≡ ok (whole_view h.next (slice offset n source), n, h'))
      × Placed h (slice offset n source) h'
unfolding owned_view new_segment
owned_view_lem zero offset count source h p q r = elim p [ ]
owned_view_lem (suc n) offset count source h p q r =
    let bytes = slice offset (suc n) source in
    let size = length-slice offset (suc n) source (omega arith) in
    let (h1, h2, viewed, dropped, placed) = place h bytes (suc n) (size) in
    (h2, rw (write-blank (suc n) offset count source q r) (rw viewed (rw dropped)), placed)
