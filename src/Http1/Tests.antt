-- ===== src/Http1/Tests.antt =====
-- Tests of the decoder and the encoder of pcc_gateway/http1.py, and the theorems at concrete inputs.
use pcc_gateway.Prelude.{
  ◌↔◌, ℕ, ℤ, pos, negsuc, codes, Text, ◌∷◌, ◌≡◌, ◌≢◌, ◌<◌, refl, List, [], true, false, Result, ok,
  err, length, Option, none, some,
}
use pcc_gateway.Buffer.View.{Heap}
use pcc_gateway.Http1.Error.{out_of_fuel, http1_error, ambiguous_framing, connection_closed}
use pcc_gateway.Http1.State.{Codec, Event, head}
use pcc_gateway.Http1.Head.{RequestHead, parse_head}
use pcc_gateway.Http1.Closing.{IsIdle, eof-feed}
use pcc_gateway.Http1.Codec.{eof, feed, Fed}
use pcc_gateway.Http1.Invariant.{IsSound, IsBounded, SameLimits}
use pcc_gateway.Http1.Loop.{feed-IsBounded}
use pcc_gateway.Http1.Smuggling.{parse_head-Framing, Framing}
use pcc_gateway.Http1.Encoder

abbrev void_heap : Heap
void_heap = record {
  next = 0;
  cell = λ owner. record {
    capacity = 0;
    bytes = [];
    start = 0;
    end = 0;
    references = 0;
    released = true;
  };
}

-- `Http1ServerCodec()`
abbrev decoder : Codec
decoder = record {
  max_request_line = 8192;
  max_header_bytes = 32768;
  max_header_count = 100;
  max_body_bytes = 16777216;
  max_chunk_bytes = 1048576;
  buffer = [];
  state = head;
  remaining = 0;
  body_received = 0;
  closed = false;
}

abbrev chunked_request : Text
chunked_request =
    codes "POST /a?b HTTP/1.1\r\nHost: x\r\nTransfer-Encoding: chunked\r\n\r\n3\r\nabc\r\n0\r\n\r\n"

chunked_fed : Fed
chunked_fed = feed chunked_request (pos 0) decoder void_heap

abbrev posted : Text
posted = codes "POST /a HTTP/1.1\r\nHost: x\r\nContent-Length: 5"

abbrev smuggled : Text
smuggled = codes "POST / HTTP/1.1\r\nHost: x\r\nContent-Length: 5\r\nTransfer-Encoding: chunked"

abbrev posted_head : RequestHead
posted_head = record {
  method = codes "POST";
  target = codes "/a";
  version = codes "HTTP/1.1";
  headers = (codes "host", codes "x") ∷ (codes "content-length", codes "5") ∷ [];
  keep_alive = true;
  expect_continue = false;
  content_length = pos 5;
  chunked = false;
}

posted_read : parse_head 8192 100 16777216 posted ≡ ok posted_head
unfolding parse_head pcc_gateway.Prelude.split_crlf pcc_gateway.Prelude.text_eq
    pcc_gateway.Prelude.split pcc_gateway.Prelude.char_in pcc_gateway.Http1.Bytes.is_token
    pcc_gateway.Prelude.find pcc_gateway.Http1.Bytes.contains_bad_value_byte
    pcc_gateway.Http1.Head.values_of pcc_gateway.Http1.Head.add_value pcc_gateway.Prelude.lower
    pcc_gateway.Prelude.strip pcc_gateway.Prelude.all_digits pcc_gateway.Prelude.decimal_from
    pcc_gateway.Http1.Head.keep_alive_of pcc_gateway.Prelude.text_in
    pcc_gateway.Http1.Head.comma_tokens
posted_read = refl

smuggled_refused : parse_head 8192 100 16777216 smuggled ≡ err (http1_error 400 ambiguous_framing)
unfolding parse_head pcc_gateway.Prelude.split_crlf pcc_gateway.Prelude.text_eq
    pcc_gateway.Prelude.split pcc_gateway.Prelude.char_in pcc_gateway.Http1.Bytes.is_token
    pcc_gateway.Prelude.find pcc_gateway.Http1.Bytes.contains_bad_value_byte
    pcc_gateway.Http1.Head.values_of pcc_gateway.Http1.Head.add_value pcc_gateway.Prelude.lower
    pcc_gateway.Prelude.strip pcc_gateway.Prelude.all_digits pcc_gateway.Prelude.decimal_from
smuggled_refused = refl

parse_head-Framing_example : Framing posted_head.headers false (pos 5)
parse_head-Framing_example = parse_head-Framing 8192 100 16777216 posted posted_head posted_read

feed-IsBounded_example :
    ((feed chunked_request (pos 0) decoder void_heap).result ≢ err out_of_fuel)
    × ((events : List Event)
        → (feed chunked_request (pos 0) decoder void_heap).result ≡ ok events
        → IsSound (feed chunked_request (pos 0) decoder void_heap).codec
          × SameLimits decoder (feed chunked_request (pos 0) decoder void_heap).codec
          × (◌≡◌ {A = ℕ} 0 0 → IsBounded (feed chunked_request (pos 0) decoder void_heap).codec))
feed-IsBounded_example = feed-IsBounded chunked_request 0 decoder void_heap (refl, refl)

empty_response_test :
    Encoder.head 200 [] (pos 12) false false
    ≡ ok (codes "HTTP/1.1 200 OK\r\nContent-Length: 12\r\nConnection: close\r\n\r\n")
unfolding Encoder.head pcc_gateway.Prelude.decimal
empty_response_test = refl

eof-feed_example :
    (((eof decoder).1 ≡ ok tt) ↔ IsIdle decoder)
    × (feed chunked_request (pos 0) (eof decoder).0 void_heap ≡ record {
      codec = (eof decoder).0;
      heap = void_heap;
      result = err (http1_error 400 connection_closed);
    })
eof-feed_example = eof-feed decoder chunked_request 0 void_heap
