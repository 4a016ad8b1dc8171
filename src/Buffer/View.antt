-- ===== src/Buffer/View.antt =====
-- `BufferView` of pcc_gateway/buffer.py. Several views share one segment, so segments stand on a heap
-- and a view names its owner. A call that raises has changed nothing.
use pcc_gateway.Prelude.{
  ℕ, ◌+◌, ◌-◌, Bool, true, false, Text, ltb, ◌==◌, if◌then◌else◌, slice, ℤ, pos, negsuc, Result, ok,
  err, ◌>>=◌,
}
use pcc_gateway.Buffer.Segment.{
  Segment, BufferError, released_error, value_error, new_segment, retain, release, write,
  view_range,
}

pub record Heap : Type 0 where
  pub next : ℕ
  pub cell : ℕ → Segment

abbrev pub update : Heap → ℕ → Segment → Heap
update h o s = record h { cell = λ p. if o == p then s else h.cell p }

abbrev pub alloc : Heap → Segment → ℕ × Heap
alloc h s = (h.next, record (update h h.next s) { next = h.next + 1 })

pub record BufferView : Type 0 where
  pub owner : ℕ
  pub start : ℕ
  pub length : ℕ
  pub released : Bool

-- `BufferView(owner, start, length)`: the range must lie below the owner's end; the owner is retained.
unfoldable pub new_view : ℕ → ℕ → ℕ → Heap → Result BufferError (BufferView × Heap)
unfolding retain
new_view owner start length h =
    if (h.cell owner).released
    then err released_error
    else if ltb (h.cell owner).end (start + length)
    then err value_error
    else do
      s ← retain (h.cell owner)
      ok (
        record { owner = owner; start = start; length = length; released = false },
        update h owner s,
      )

-- `BufferSegment.view`
unfoldable pub view_segment : ℕ → ℤ → ℤ → Heap → Result BufferError (BufferView × Heap)
unfolding view_range new_view
view_segment owner offset length h = elim (view_range (h.cell owner) offset length) [
  | err e ↦ err e
  | ok (start, count) ↦ new_view owner start count h
]

unfoldable pub release_segment : ℕ → Heap → Result BufferError (ℕ × Heap)
unfolding release
release_segment owner h = elim (release (h.cell owner)) [
  | err e ↦ err e
  | ok (s, freed) ↦ ok (freed, update h owner s)
]

unfoldable pub len : BufferView → ℕ
len v = if v.released then 0 else v.length

unfoldable pub to_bytes : BufferView → Heap → Result BufferError Text
to_bytes v h =
    if v.released then err released_error else ok (slice v.start v.length (h.cell v.owner).bytes)

-- The range that `BufferView.slice` cuts out.
unfoldable pub slice_range : BufferView → ℤ → ℤ → Result BufferError (ℕ × ℕ)
slice_range v (negsuc o) l = err value_error
slice_range v (pos o) (negsuc l) =
    if ltb v.length o then err value_error else ok (v.start + o, v.length - o)
slice_range v (pos o) (pos l) =
    if ltb v.length o
    then err value_error
    else if ltb v.length (o + l)
    then err value_error
    else ok (v.start + o, l)

unfoldable pub slice_view : BufferView → ℤ → ℤ → Heap → Result BufferError (BufferView × Heap)
unfolding slice_range new_view
slice_view v offset count h =
    if v.released then err released_error else elim (slice_range v offset count) [
      | err e ↦ err e
      | ok (start, l) ↦ new_view v.owner start l h
    ]

-- The released view, what the release of its owner returned, and the heap.
unfoldable pub release_view : BufferView → Heap → Result BufferError (BufferView × ℕ × Heap)
unfolding release_segment
release_view v h = if v.released then err released_error else elim (release_segment v.owner h) [
  | err e ↦ err e
  | ok (freed, h') ↦ ok (record v { length = 0; released = true }, freed, h')
]

-- A segment that holds `source`, and a view of its first `written` bytes: the segment's own reference
-- is dropped, so the view is its one owner. The steps of `ChannelBuffer.append` and `BodyChunk`.
unfoldable pub owned_view : ℤ → Text → ℤ → ℤ → Heap → Result BufferError (BufferView × ℕ × Heap)
unfolding new_segment write view_segment release_segment
owned_view capacity source offset length h = do
  segment ← new_segment capacity
  written ← write segment source offset length
  let placed = alloc h written.0
  viewed ← view_segment placed.0 (pos 0) (pos written.1) placed.1
  dropped ← release_segment placed.0 viewed.1
  ok (viewed.0, written.1, dropped.1)
