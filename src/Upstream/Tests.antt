-- ===== src/Upstream/Tests.antt =====
-- Runs of pcc_gateway/proxy_http1.py on concrete inputs, and witnesses of the theorems.
use pcc_gateway.Prelude.{
  ℕ, zero, suc, ◌+◌, ◌≤◌, ◌≡◌, refl, Bool, true, false, List, [], ◌∷◌, ◌++◌, Option, none, some,
  Text, codes, ℤ, pos, Result, ok, err, arith,
}
use pcc_gateway.Upstream.Response.{ambiguous_framing, pipelined_response}
use pcc_gateway.Upstream.Codec.{UpstreamCodec, at_head, completed, new_codec, feed}
use pcc_gateway.Upstream.Counting.{IsLimited, body_total}
use pcc_gateway.Upstream.Feeding.{IsFed, feed-IsFed}
use pcc_gateway.Upstream.Request.{ProxyRequest, encode_proxy_request_head}
use pcc_gateway.Upstream.Injection.{IsWritten, encode_proxy_request_head-IsWritten}
use pcc_gateway.Upstream.Deadline.{
  Timeouts, ProxyDeadline, new_deadline, connected, cancel_exchange, DeadlineCall, call_connected,
  call_response_head, after_calls, expired, expired-cancel_exchange,
}

abbrev codec : UpstreamCodec
codec = record {
  request_method = codes "GET";
  max_header_bytes = 1000;
  max_header_count = 10;
  max_body_bytes = 100;
  max_chunk_bytes = 50;
  buffer = [];
  state = at_head;
  remaining = 0;
  body_received = 0;
  complete = false;
  closed = false;
}

made : new_codec (codes "get") (pos 1000) (pos 10) 100 50 ≡ ok codec
unfolding new_codec
made = refl

abbrev response : Text
response = codes "HTTP/1.1 200 OK\r\nContent-Length: 3\r\n\r\nabc"

fixed_length : body_total (elim (feed codec response).0 [ err e ↦ [] | ok events ↦ events ]) ≡ 3
unfolding body_total feed pcc_gateway.Prelude.find pcc_gateway.Prelude.text_eq
    pcc_gateway.Prelude.all_digits pcc_gateway.Http1.Bytes.contains_bad_value_byte
    pcc_gateway.Prelude.decimal_from pcc_gateway.Http1.Bytes.is_token
    pcc_gateway.Http1.Head.add_value pcc_gateway.Prelude.lower pcc_gateway.Prelude.char_in
    pcc_gateway.Prelude.strip
fixed_length = refl

two_framings :
    (feed codec
      (codes "HTTP/1.1 200 OK\r\nContent-Length: 3\r\nTransfer-Encoding: chunked\r\n\r\n")).0
    ≡ err ambiguous_framing
unfolding feed pcc_gateway.Prelude.find pcc_gateway.Prelude.text_eq pcc_gateway.Prelude.all_digits
    pcc_gateway.Http1.Bytes.contains_bad_value_byte pcc_gateway.Prelude.decimal_from
    pcc_gateway.Http1.Bytes.is_token pcc_gateway.Http1.Head.add_value pcc_gateway.Prelude.lower
    pcc_gateway.Prelude.char_in pcc_gateway.Prelude.strip
two_framings = refl

bytes_behind : (feed codec (response ++ codes "x")).0 ≡ err pipelined_response
unfolding feed pcc_gateway.Prelude.find pcc_gateway.Prelude.text_eq pcc_gateway.Prelude.all_digits
    pcc_gateway.Http1.Bytes.contains_bad_value_byte pcc_gateway.Prelude.decimal_from
    pcc_gateway.Http1.Bytes.is_token pcc_gateway.Http1.Head.add_value pcc_gateway.Prelude.lower
    pcc_gateway.Prelude.char_in pcc_gateway.Prelude.strip
bytes_behind = refl

chunks :
    (feed codec
      (codes "HTTP/1.1 200 OK\r\nTransfer-Encoding: chunked\r\n\r\n2\r\nab\r\n0\r\n\r\n")).1.state
    ≡ completed
unfolding feed pcc_gateway.Prelude.find pcc_gateway.Prelude.text_eq pcc_gateway.Prelude.all_digits
    pcc_gateway.Http1.Bytes.contains_bad_value_byte pcc_gateway.Prelude.decimal_from
    pcc_gateway.Http1.Bytes.is_token pcc_gateway.Http1.Head.add_value pcc_gateway.Prelude.lower
    pcc_gateway.Http1.Bytes.split_commas
chunks = refl

limited : IsLimited codec
limited = record { within = omega arith; fresh = refl }

feed-IsFed_example : IsFed codec (feed codec response)
feed-IsFed_example = feed-IsFed codec response limited

abbrev timeouts : Timeouts
timeouts = record { connect_ms = 5; header_ms = 6; body_ms = 7; idle_ms = 8 }

abbrev deadline : ProxyDeadline
deadline = record {
  timeouts = timeouts;
  stage = pcc_gateway.Upstream.Deadline.connect_stage;
  deadline_ms = some 5;
  is_cancelled = false;
}

expired-cancel_exchange_example :
    expired
      (after_calls (cancel_exchange deadline) (call_connected 9 ∷ call_response_head 11 true ∷ []))
      99
    ≡ false
expired-cancel_exchange_example =
    expired-cancel_exchange deadline (call_connected 9 ∷ call_response_head 11 true ∷ []) 99

abbrev request : ProxyRequest
request = record {
  method = codes "GET";
  target = codes "/a";
  headers = (codes "Host", codes "old") ∷ (codes "Content-Length", codes "9") ∷ [];
  upstream_authority = codes "up";
  client_ip = codes "c";
  scheme = codes "http";
  original_host = codes "old";
  content_length = pos 0;
  chunked = false;
  trust_forwarded = false;
  expect_continue_handled = true;
}

abbrev request_bytes : Text
request_bytes =
    codes
      "GET /a HTTP/1.1\r\nhost: up\r\nx-forwarded-for: c\r\nx-forwarded-proto: http\r\nx-forwarded-host: old\r\ncontent-length: 0\r\n\r\n"

request_written : encode_proxy_request_head request ≡ ok request_bytes
unfolding encode_proxy_request_head pcc_gateway.Proxy.Headers.connection_named_fields
request_written = refl

encode_proxy_request_head-IsWritten_example : IsWritten request request_bytes
encode_proxy_request_head-IsWritten_example =
    encode_proxy_request_head-IsWritten request request_bytes request_written
