-- ===== src/Buffer/Copy.antt =====
-- The copying loop of `BufferSegment.write`.
use mathlib.Core.List.{append_assoc}
use native.Mathlib.Nat.{add-suc, suc-add, add-zero}
use pcc_gateway.Prelude.{
  ℕ, zero, suc, ◌+◌, ◌≤◌, ◌≡◌, refl, sym, ◌∙◌, ◌++◌, Text, length, take, drop, set, get_or, slice,
  length-set, take-set, drop-set, drop-get_or, take-append-drop, arith,
}
use pcc_gateway.Buffer.Segment.{copy_loop}

-- The loop replaces a range of the bytes by a range of the source, and nothing else.
pub copy_loop_lem :
    (count to from : ℕ) (bytes source : Text)
    → to + count ≤ length bytes
    → from + count ≤ length source
    → copy_loop count to from bytes source
      ≡ take to bytes ++ (slice from count source ++ drop (to + count) bytes)
unfolding copy_loop
copy_loop_lem zero to from bytes source h k = rw add-zero (sym (take-append-drop to bytes))
copy_loop_lem (suc count) to from bytes source h k =
    let x = get_or source from 0 in
    copy_loop_lem count (suc to) (suc from) (set bytes to x) source
      (omega (arith, length-set bytes to x)) (omega arith)
    ∙ rw
        (
          take-set bytes to x (omega arith),
          drop-set bytes to (suc to + count) x (omega arith),
          drop-get_or source from 0 (omega arith),
          append_assoc,
          suc-add,
          add-suc,
        )
        refl
