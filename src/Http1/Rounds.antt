-- ===== src/Http1/Rounds.antt =====
-- The rounds of the loop of `_feed_pending` of pcc_gateway/http1.py and the invariant.
use pcc_gateway.Prelude.{
  ℕ, ◌+◌, ◌-◌, ◌*◌, ◌≤◌, ◌<◌, ◌≡◌, ◌⊎◌, refl, subst, not, ◌||◌, inl, inr, length, take, drop,
  length-drop, length-take, get_or, lt→ltb, split_crlf, ltb, ◌==◌, if◌then◌else◌, arith,
  Option-cases, Bool-cases, Result-cases,
}
use pcc_gateway.Buffer.View.{Heap}
use pcc_gateway.Http1.Bytes.{find_double_crlf, find_crlf}
use pcc_gateway.Http1.Head.{parse_head, parse_headers}
use pcc_gateway.Http1.Ends.{parse_head-Ends, parse_headers-Ends, parse_chunk_size_line-Ends}
use pcc_gateway.Http1.Chunk.{parse_chunk_size_line}
use pcc_gateway.Http1.State.{
  Event, State, head, fixed_body, chunk_size, chunk_data, trailers, Codec, Feed,
}
use pcc_gateway.Http1.Steps.{
  step, step_in, step_head, step_fixed_body, step_chunk_size, step_chunk_data, step_trailers,
  after_fixed, begin_chunk, chunk_done, emit, set_codec,
}
use pcc_gateway.Http1.Framing.{parse_head-LengthFits}
use pcc_gateway.Http1.Invariant.{
  Fits, find_crlf-Fits, find_double_crlf-Fits, measure, SoundIn, IsSound, SameLimits, Good,
  with_chunk-Good,
}

step_head-Good :
    (max : ℕ) (f : Feed)
    → f.codec.state ≡ head
    → SoundIn head f.codec
    → Good max (measure f) f.codec (step_head max f)
unfolding step_head
step_head-Good max f at s =
    let c = f.codec in
    elim (Option-cases (find_double_crlf c.buffer)) [
      | inl e ↦ rw (e, step_head) (ground arith)
      | inr (marker, e) ↦
          let fits = subst (Fits 4 (length c.buffer)) e (find_double_crlf-Fits c.buffer) in
          let parsed =
            parse_head c.max_request_line c.max_header_count c.max_body_bytes
              (take marker c.buffer) in
          elim (Result-cases parsed) [
            | inl (r, p) ↦ ground (
              arith,
              length-drop (marker + 4) c.buffer,
              parse_head-LengthFits c.max_request_line c.max_header_count c.max_body_bytes
                  (take marker c.buffer) r p,
            )
            | inr (x, p) ↦ ground (
              arith,
              (parse_head-Ends c.max_request_line c.max_header_count c.max_body_bytes
                  (take marker c.buffer)).never,
            )
          ]
    ]

after_fixed-Good :
    (max n : ℕ) (c : Codec) (f : Feed)
    → f.codec.state ≡ fixed_body
    → 2 * length f.codec.buffer < n
    → f.codec.body_received + f.codec.remaining ≤ f.codec.max_body_bytes
    → (f.codec.remaining ≡ 0) ⊎ (length f.codec.buffer ≡ 0)
    → SameLimits c f.codec
    → Good max n c (after_fixed max f)
unfolding after_fixed
after_fixed-Good max n c f at h s e l = ground arith

-- The number of bytes that a round of a fixed-length body takes.
abbrev taken : Codec → ℕ
taken c = if ltb (length c.buffer) c.remaining then length c.buffer else c.remaining

abbrev take_fixed : Feed → Feed
take_fixed f =
    let c = f.codec in
    set_codec
      (record c {
        buffer = drop (taken c) c.buffer;
        remaining = c.remaining - taken c;
        body_received = c.body_received + taken c;
      })
      f

step_fixed_body-Good :
    (max : ℕ) (f : Feed)
    → f.codec.state ≡ fixed_body
    → SoundIn fixed_body f.codec
    → Good max (measure f) f.codec (step_fixed_body max f)
unfolding step_fixed_body
step_fixed_body-Good max f at s =
    let c = f.codec in
    let rest : (ev : Event) (h : Heap)
        → Good max (measure f) c (after_fixed max (emit ev (record (take_fixed f) { heap = h }))) =
      λ ev h.
        after_fixed-Good max (measure f) c (emit ev (record (take_fixed f) { heap = h })) at
          (rw at (omega (arith, length-drop (taken c) c.buffer))) (ground arith)
          (ground (arith, length-drop (taken c) c.buffer)) (ground arith) in
    elim (Bool-cases (length c.buffer == 0)) [
      | inl e ↦ ground arith
      | inr e ↦
          let some_taken : 0 < taken c = ground arith in
          rw (e, step_fixed_body, lt→ltb 0 (taken c) some_taken)
            (with_chunk-Good max (measure f) c (take (taken c) c.buffer) (take_fixed f)
              (after_fixed max) (ground (arith, length-take (taken c) c.buffer)) rest)
    ]

begin_chunk-Good :
    (size max n : ℕ) (c : Codec) (f : Feed)
    → 2 * length f.codec.buffer < n
    → SoundIn chunk_size f.codec
    → SameLimits c f.codec
    → Good max n c (begin_chunk size f)
unfolding begin_chunk
begin_chunk-Good size max n c f h s l = ground arith

step_chunk_size-Good :
    (max : ℕ) (f : Feed)
    → f.codec.state ≡ chunk_size
    → SoundIn chunk_size f.codec
    → Good max (measure f) f.codec (step_chunk_size f)
unfolding step_chunk_size
step_chunk_size-Good max f at s =
    let c = f.codec in
    elim (Option-cases (find_crlf c.buffer)) [
      | inl e ↦ rw (e, step_chunk_size) (ground arith)
      | inr (marker, e) ↦
          let fits = subst (Fits 2 (length c.buffer)) e (find_crlf-Fits c.buffer) in
          elim (Result-cases (parse_chunk_size_line (take marker c.buffer))) [
            | inl (size, p) ↦ ground (arith, length-drop (marker + 2) c.buffer)
            | inr (x, p) ↦ ground (arith, (parse_chunk_size_line-Ends (take marker c.buffer)).never)
          ]
    ]

step_chunk_data-Good :
    (max : ℕ) (f : Feed)
    → f.codec.state ≡ chunk_data
    → SoundIn chunk_data f.codec
    → Good max (measure f) f.codec (step_chunk_data f)
unfolding step_chunk_data
step_chunk_data-Good max f at s =
    let c = f.codec in
    let end =
      not (get_or c.buffer c.remaining 0 == 13)
      || not (get_or c.buffer (c.remaining + 1) 0 == 10) in
    let f' =
      set_codec
        (record c {
          buffer = drop (c.remaining + 2) c.buffer;
          remaining = 0;
          body_received = c.body_received + c.remaining;
        })
        f in
    elim (Bool-cases (ltb (length c.buffer) (c.remaining + 2))) [
      | inl e ↦ rw (e, step_chunk_data) (ground arith)
      | inr e ↦ elim (Bool-cases end) [
        | inl p ↦ rw (e, step_chunk_data, p) (λ h. cc)
        | inr p ↦
            rw (e, step_chunk_data, p)
              (with_chunk-Good max (measure f) c (take c.remaining c.buffer) f' chunk_done
                (ground (arith, length-take c.remaining c.buffer))
                (λ ev h. ground (arith, length-drop (c.remaining + 2) c.buffer)))
      ]
    ]

step_trailers-Good :
    (max : ℕ) (f : Feed)
    → f.codec.state ≡ trailers
    → SoundIn trailers f.codec
    → Good max (measure f) f.codec (step_trailers max f)
unfolding step_trailers
step_trailers-Good max f at s =
    let c = f.codec in
    elim (Option-cases (find_double_crlf c.buffer)) [
      | inl e ↦ ground (arith, length-drop 2 c.buffer)
      | inr (marker, e) ↦
          let fits = subst (Fits 4 (length c.buffer)) e (find_double_crlf-Fits c.buffer) in
          elim (Result-cases
            (parse_headers (split_crlf (take marker c.buffer)) c.max_header_count)) [
              | inl ((fields, names), p) ↦
                  ground (arith, length-drop 2 c.buffer, length-drop (marker + 4) c.buffer)
              | inr (x, p) ↦ ground (
                arith,
                length-drop 2 c.buffer,
                (parse_headers-Ends (split_crlf (take marker c.buffer)) c.max_header_count).never,
              )
            ]
    ]

step_in-Good :
    (s : State) (max : ℕ) (f : Feed)
    → f.codec.state ≡ s
    → SoundIn s f.codec
    → Good max (measure f) f.codec (step_in s max f)
unfolding step_in
step_in-Good head max f e h = step_head-Good max f e h
step_in-Good fixed_body max f e h = step_fixed_body-Good max f e h
step_in-Good chunk_size max f e h = step_chunk_size-Good max f e h
step_in-Good chunk_data max f e h = step_chunk_data-Good max f e h
step_in-Good trailers max f e h = step_trailers-Good max f e h

pub step-Good : (max : ℕ) (f : Feed) → IsSound f.codec → Good max (measure f) f.codec (step max f)
unfolding step
step-Good max f h = step_in-Good f.codec.state max f refl h
