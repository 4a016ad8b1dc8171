-- ===== src/Buffer/Segment.antt =====
-- `BufferSegment` of pcc_gateway/buffer.py, as a value: its methods return the new segment. The
-- field `data` is `bytes` here. Every check of a method comes before its first write.
use pcc_gateway.Prelude.{
  ℕ, zero, suc, ◌+◌, ◌-◌, Bool, true, false, [], Text, ltb, if◌then◌else◌, length, set, get_or,
  replicate, ℤ, pos, negsuc, Result, ok, err,
}

pub data BufferError : Type 0 where
  released_error closed_error limit_error value_error index_error : BufferError
  -- no exception of the source: a loop of the model that was cut off
  out_of_fuel : BufferError

pub record Segment : Type 0 where
  pub capacity : ℕ
  pub bytes : Text
  pub start : ℕ
  pub end : ℕ
  pub references : ℕ
  pub released : Bool

unfoldable pub new_segment : ℤ → Result BufferError Segment
new_segment (negsuc n) = err value_error
new_segment (pos zero) = err value_error
new_segment (pos (suc n)) = ok (record {
  capacity = suc n;
  bytes = replicate (suc n) 0;
  start = 0;
  end = 0;
  references = 1;
  released = false;
})

unfoldable pub retain : Segment → Result BufferError Segment
retain s =
    if s.released then err released_error else ok (record s { references = s.references + 1 })

unfoldable pub release_counted : Segment → ℕ → Result BufferError (Segment × ℕ)
release_counted s zero = err released_error
release_counted s (suc zero) =
    ok (record s { bytes = []; start = 0; end = 0; references = 0; released = true }, 1)
release_counted s (suc (suc n)) = ok (record s { references = suc n }, 0)

-- A count that is already 0 would become negative: the source raises.
unfoldable pub release : Segment → Result BufferError (Segment × ℕ)
unfolding release_counted
release s = if s.released then err released_error else release_counted s s.references

unfoldable pub readable_bytes : Segment → ℕ
readable_bytes s = if s.released then 0 else s.end - s.start

unfoldable pub writable_bytes : Segment → ℕ
writable_bytes s = if s.released then 0 else s.capacity - s.end

-- `while index < count: data[to + index] = source[from + index]`
unfoldable pub copy_loop : ℕ → ℕ → ℕ → Text → Text → Text
copy_loop zero to from bytes source = bytes
copy_loop (suc count) to from bytes source =
    copy_loop count (suc to) (suc from) (set bytes to (get_or source from 0)) source

unfoldable pub write_count : Segment → Text → ℕ → ℕ → Segment × ℕ
unfolding writable_bytes copy_loop
write_count s source offset length =
    let available = writable_bytes s in
    let count = if ltb available length then available else length in
    (record s { bytes = copy_loop count s.end offset s.bytes source; end = s.end + count }, count)

-- The bytes `source[offset:offset + length]`, where a negative length stands for all that is left.
unfoldable pub checked_range : ℕ → ℤ → ℤ → Result BufferError (ℕ × ℕ)
checked_range size (negsuc o) length = err value_error
checked_range size (pos o) (negsuc l) = if ltb size o then err value_error else ok (o, size - o)
checked_range size (pos o) (pos l) =
    if ltb size o then err value_error else if ltb size (o + l) then err value_error else ok (o, l)

unfoldable pub write : Segment → Text → ℤ → ℤ → Result BufferError (Segment × ℕ)
unfolding write_count checked_range
write s source offset count =
    if s.released then err released_error else elim (checked_range (length source) offset count) [
      | err e ↦ err e
      | ok (o, l) ↦ ok (write_count s source o l)
    ]

unfoldable pub consume_count : Segment → ℕ → Segment × ℕ
unfolding readable_bytes
consume_count s length =
    let readable = readable_bytes s in
    let count = if ltb readable length then readable else length in
    (record s { start = s.start + count }, count)

unfoldable pub consume : Segment → ℤ → Result BufferError (Segment × ℕ)
unfolding consume_count
consume s (negsuc n) = if s.released then err released_error else err value_error
consume s (pos n) = if s.released then err released_error else ok (consume_count s n)

-- The checks of `view`: the range of the segment's storage that it covers.
unfoldable pub view_range : Segment → ℤ → ℤ → Result BufferError (ℕ × ℕ)
unfolding checked_range readable_bytes
view_range s offset count =
    if s.released
    then err released_error
    else elim (checked_range (readable_bytes s) offset count) [
      | err e ↦ err e
      | ok (o, l) ↦ ok (s.start + o, l)
    ]
