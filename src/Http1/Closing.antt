-- ===== src/Http1/Closing.antt =====
-- `eof` of pcc_gateway/http1.py, and `feed` after it.
use pcc_gateway.Prelude.{
  ℕ, ◌≡◌, ◌↔◌, refl, [], ◌∷◌, Text, length, ◌==◌, pos, Result, ok, err, arith, if◌then◌else◌,
}
use pcc_gateway.Buffer.View.{Heap}
use pcc_gateway.Http1.Error.{Raised, http1_error, incomplete_request, connection_closed}
use pcc_gateway.Http1.State.{State, head, fixed_body, chunk_size, chunk_data, trailers, Codec}
use pcc_gateway.Http1.Codec.{feed, feed_pending, finish, clean_up, release_events, eof}

-- The decoder stands between two requests.
abbrev pub IsIdle : Codec → Type 0
IsIdle c = (c.state ≡ head) × (c.buffer ≡ [])

at_end : State → Text → Result Raised (Unit {0})
at_end head buffer = if length buffer == 0 then ok tt else err (http1_error 400 incomplete_request)
at_end _ buffer = err (http1_error 400 incomplete_request)

at_end_iff : (s : State) (buffer : Text) → (at_end s buffer ≡ ok tt) ↔ ((s ≡ head) × (buffer ≡ []))
unfolding at_end
at_end_iff head [] = (λ h. (refl, refl), λ h. refl)
at_end_iff head (b ∷ bs) = (λ h. absurd (ground arith), λ h. absurd (cc))
at_end_iff fixed_body buffer = (λ h. absurd (cc), λ h. absurd (cc))
at_end_iff chunk_size buffer = (λ h. absurd (cc), λ h. absurd (cc))
at_end_iff chunk_data buffer = (λ h. absurd (cc), λ h. absurd (cc))
at_end_iff trailers buffer = (λ h. absurd (cc), λ h. absurd (cc))

eof-at_end : (c : Codec) → (eof c).1 ≡ at_end c.state c.buffer
unfolding eof at_end
eof-at_end c = go c.state
  where
    go : (s : State) → (eof (record c { state = s })).1 ≡ at_end s c.buffer
    go head = refl
    go fixed_body = refl
    go chunk_size = refl
    go chunk_data = refl
    go trailers = refl

-- The end of the connection's bytes is accepted exactly between two requests, with no byte held back; and
-- whichever it was, every later `feed` is refused, and changes neither the decoder nor the heap.
pub eof-feed :
    (c : Codec) (bytes : Text) (max : ℕ) (h : Heap)
    → (((eof c).1 ≡ ok tt) ↔ IsIdle c)
      × (feed bytes (pos max) (eof c).0 h ≡ record {
        codec = (eof c).0;
        heap = h;
        result = err (http1_error 400 connection_closed);
      })
unfolding eof feed feed_pending finish clean_up release_events
eof-feed c bytes max h = (rw (eof-at_end c) (at_end_iff c.state c.buffer), refl)
