-- ===== src/Buffer/Append.antt =====
-- What `ChannelBuffer.append` of pcc_gateway/buffer.py does to the buffer and to the heap.
use mathlib.Core.List.{append_assoc, append-nil}
use pcc_gateway.Prelude.{
  ℕ, zero, suc, ◌+◌, ◌-◌, ◌≤◌, ◌<◌, ◌≡◌, refl, sym, ◌∙◌, ap, subst, Bool, true, false, not, ◌&&◌,
  ◌||◌, List, [], ◌∷◌, ◌++◌, Text, ltb, leb, ltb→lt, le→ltb, if◌then◌else◌, length, drop, slice,
  drop-drop, take-append-drop, drop-all, take-all, length-take, Result, ok, err, arith, Bool-cases,
  inl, inr,
}
use pcc_gateway.Buffer.Segment.{BufferError, closed_error, limit_error}
use pcc_gateway.Buffer.View.{Heap, BufferView, to_bytes}
use pcc_gateway.Buffer.Channel.{
  ChannelBuffer, Backpressure, high, append_loop, grown, append, transition_after_growth,
}
use pcc_gateway.Buffer.Owned.{filled, whole_view, Placed, owned_view_lem}

-- From heap to heap, one fresh segment for each view, which together hold a text.
pub data Laid (size : ℕ) : Heap → Text → List BufferView → Heap → Type 0 where
  none : (h : Heap) → Laid size h [] [] h
  segment :
      (h h1 h2 : Heap) (bytes rest : Text) (views : List BufferView)
      → length bytes ≤ size
      → Placed h bytes h1
      → Laid size h1 rest views h2
      → Laid size h (bytes ++ rest) (whole_view h.next bytes ∷ views) h2

-- Earlier segments stay as they are.
Laid-others :
    (size : ℕ) (h h' : Heap) (text : Text) (views : List BufferView)
    → Laid size h text views h'
    → (o : ℕ) → o < h.next
    → h'.cell o ≡ h.cell o
Laid-others size h h' text views (none _) o k = refl
Laid-others size h h' text views (segment _ h1 _ bytes rest vs s p l) o k =
    Laid-others size h1 h' rest vs l o (let e = p.next in omega arith)
    ∙ p.others o (λ e. omega arith)

-- The bytes of views, one after the other.
abbrev pub read_all : List BufferView → Heap → Result BufferError Text
read_all [] h = ok []
read_all (v ∷ vs) h = elim (to_bytes v h) [
  | err e ↦ err e
  | ok bytes ↦ elim (read_all vs h) [ err e ↦ err e | ok rest ↦ ok (bytes ++ rest) ]
]

to_bytes-filled :
    (o : ℕ) (bytes : Text) (h : Heap)
    → h.cell o ≡ filled bytes 1
    → to_bytes (whole_view o bytes) h ≡ ok bytes
unfolding to_bytes
to_bytes-filled o bytes h e =
    ap (λ s. ok (slice 0 (length bytes) s.bytes)) e
    ∙ ap ok (take-all (length bytes) bytes (omega arith))

read_all-next :
    (v : BufferView) (vs : List BufferView) (h : Heap) (bytes rest : Text)
    → to_bytes v h ≡ ok bytes
    → read_all vs h ≡ ok rest
    → read_all (v ∷ vs) h ≡ ok (bytes ++ rest)
read_all-next v vs h bytes rest e f = ground arith

ltb→le : (a b : ℕ) → ltb a b ≡ false → b ≤ a
ltb→le a b h = ground arith

Laid-read_all :
    (size : ℕ) (h h' : Heap) (text : Text) (views : List BufferView)
    → Laid size h text views h'
    → read_all views h' ≡ ok text
Laid-read_all size h h' text views (none _) = refl
Laid-read_all size h h' text views (segment _ h1 _ bytes rest vs s p l) =
    let cell = Laid-others size h1 h' rest vs l h.next (let e = p.next in omega arith) ∙ p.placed in
    read_all-next (whole_view h.next bytes) vs h' bytes rest (to_bytes-filled h.next bytes h' cell)
      (Laid-read_all size h1 h' rest vs l)

capacity-fits :
    (left size : ℕ)
    → 0 < size
    → 0 < left
    → (0 < (if ltb left size then left else size))
      × ((if ltb left size then left else size) ≤ size)
      × ((if ltb left size then left else size) ≤ left)
capacity-fits left size p q = (ground arith, ground arith, ground arith)

pieces :
    (offset count : ℕ) (source : Text)
    → slice offset count source ++ drop (offset + count) source ≡ drop offset source
pieces offset count source =
    rw (← drop-drop offset count source) (take-append-drop count (drop offset source))

append_loop-Laid :
    (n size offset : ℕ) (source : Text) (views : List BufferView) (h : Heap)
    → 0 < size
    → offset ≤ length source
    → length source ≤ offset + n
    → (fresh : List BufferView) × (h' : Heap) × (append_loop n size source offset views h
        ≡ ok (views ++ fresh, h'))
      × Laid size h (drop offset source) fresh h'
unfolding append_loop
append_loop-Laid zero size offset source views h p q r = (
  [],
  h,
  rw (le→ltb offset (length source) (omega arith)) (ap (λ vs. ok (vs, h)) (sym (append-nil views))),
  rw (drop-all offset source (omega arith)) (none h),
)
append_loop-Laid (suc n) size offset source views h p q r =
    elim (Bool-cases (ltb offset (length source))) [
      | inr e ↦ (
        [],
        h,
        rw (e, append_loop) (ap (λ vs. ok (vs, h)) (sym (append-nil views))),
        rw (drop-all offset source (ltb→le offset (length source) e)) (none h),
      )
      | inl e ↦
          let cap = if ltb (length source - offset) size then length source - offset else size in
          let (positive, fits, left) =
            capacity-fits (length source - offset) size p
              (let k = ltb→lt offset (length source) e in omega arith) in
          let (h1, written, placed) =
            owned_view_lem cap offset (length source - offset) source h positive left
              (omega arith) in
          let bytes = slice offset cap source in
          let (fresh, h', rest, laid) =
            append_loop-Laid n size (offset + cap) source (views ++ whole_view h.next bytes ∷ []) h1
              p (omega arith) (omega arith) in
          (
            whole_view h.next bytes ∷ fresh,
            h',
            rw (e, written, rest, append_loop)
                (ap (λ vs. ok (vs, h')) (append_assoc views (whole_view h.next bytes ∷ []) fresh)),
            subst (λ text. Laid size h text (whole_view h.next bytes ∷ fresh) h')
                (pieces offset cap source)
                (segment h h1 h' bytes (drop (offset + cap) source) fresh
                  (omega (arith, length-take cap (drop offset source))) placed laid),
          )
    ]

append-grown :
    (source : Text) (c : ChannelBuffer) (h h' : Heap) (fresh : List BufferView)
    → c.closed ≡ false
    → c.queued_bytes + length source ≤ c.max_bytes
    → append_loop (length source) c.segment_size source 0 c.views h ≡ ok (c.views ++ fresh, h')
    → append source c h ≡ ok (grown c (c.views ++ fresh) (length source) h')
unfolding append
append-grown source c h h' fresh open_ room e =
    rw (e, append)
      (go c.closed (ltb c.max_bytes (c.queued_bytes + length source)) open_
        (le→ltb c.max_bytes (c.queued_bytes + length source) room))
  where
    go :
        (b d : Bool)
        → b ≡ false
        → d ≡ false
        → (if b
            then err closed_error
            else if d
            then err limit_error
            else ok (grown c (c.views ++ fresh) (length source) h'))
          ≡ ok (grown c (c.views ++ fresh) (length source) h')
    go false false p q = refl
    go true d p q = absurd (cc)
    go false true p q = absurd (cc)

-- What `grown` leaves.
record Grown (c : ChannelBuffer) (views : List BufferView) (added : ℕ) (h : Heap)
    (r : Backpressure × ChannelBuffer × Heap) : Type 0 where
  heap : r.2 ≡ h
  kept : r.1 ≡ record c {
    views = views;
    queued_bytes = c.queued_bytes + added;
    backpressured = r.1.backpressured;
  }
  counted : r.1.queued_bytes ≡ c.queued_bytes + added
  pressed : r.1.backpressured ≡ (c.backpressured || leb c.high_watermark (c.queued_bytes + added))
  told : r.0 ≡ (if not c.backpressured && r.1.backpressured then high else Backpressure.none)

grown_lem :
    (c : ChannelBuffer) (views : List BufferView) (added : ℕ) (h : Heap)
    → Grown c views added h (grown c views added h)
unfolding grown transition_after_growth
grown_lem c views added h = record {
  heap = refl;
  kept = ground arith;
  counted = ground arith;
  pressed = ground arith;
  told = ground arith;
}

-- What `append` of some bytes leaves.
pub record Appended (source : Text) (c : ChannelBuffer) (h : Heap) : Type 0 where
  pub fresh : List BufferView
  pub event : Backpressure
  pub buffer : ChannelBuffer
  pub heap : Heap
  pub returned : append source c h ≡ ok (event, buffer, heap)
  pub kept : buffer ≡ record c {
    views = c.views ++ fresh;
    queued_bytes = c.queued_bytes + length source;
    backpressured = buffer.backpressured;
  }
  pub read : read_all fresh heap ≡ ok source
  pub others : (o : ℕ) → o < h.next → heap.cell o ≡ h.cell o
  pub counted : buffer.queued_bytes ≡ c.queued_bytes + length source
  pub pressed :
      buffer.backpressured
      ≡ (c.backpressured || leb c.high_watermark (c.queued_bytes + length source))
  pub told :
      event ≡ (if not c.backpressured && buffer.backpressured then high else Backpressure.none)

-- An open buffer with room for some bytes takes all of them: views of fresh segments, put behind the views
-- that are there, read back as the bytes; earlier segments keep what they hold; and the bytes are counted,
-- with backpressure once the high watermark is reached, told when it begins. The other fields of the
-- buffer stay as they are.
pub append_lem :
    (source : Text) (c : ChannelBuffer) (h : Heap)
    → c.closed ≡ false
    → c.queued_bytes + length source ≤ c.max_bytes
    → 0 < c.segment_size
    → Appended source c h
append_lem source c h open_ room size =
    let (new, h', e, laid) =
      append_loop-Laid (length source) c.segment_size 0 source c.views h size (omega arith)
        (omega arith) in
    let out = grown c (c.views ++ new) (length source) h' in
    let g = grown_lem c (c.views ++ new) (length source) h' in
    record {
      fresh = new;
      event = out.0;
      buffer = out.1;
      heap = h';
      returned =
          append-grown source c h h' new open_ room e ∙ ap (λ k. ok (out.0, out.1, k)) g.heap;
      kept = g.kept;
      read = Laid-read_all c.segment_size h h' source new laid;
      others = Laid-others c.segment_size h h' source new laid;
      counted = g.counted;
      pressed = g.pressed;
      told = g.told;
    }
