-- ===== src/Lib.antt =====
-- Verification library of pcc-gateway, the HTTP/1.1 gateway of pcc_gateway/.
--
-- The program. `Http1ServerCodec` (pcc_gateway/http1.py) turns a connection's bytes into request events
-- and owns the body bytes in buffer segments (pcc_gateway/buffer.py); `Http1ResponseEncoder` turns
-- answers into bytes. The router (pcc_gateway/routing.py) finds a request's route. The lifecycle
-- (pcc_gateway/lifecycle.py) admits connections and requests, counts them, and swaps the configuration
-- generation that requests hold on to. The proxy (pcc_gateway/proxy.py) cleans the headers that go on to
-- an upstream. The resolver (pcc_gateway/dns.py) finds an upstream's addresses: it reads numeric names, a hosts file and a
-- cache, and drives queries to servers; every address passes its policy. The upstream's
-- response comes back through a decoder of its own (pcc_gateway/proxy_http1.py).
--
-- Files and source.
-- Prelude and its children: Boolean tests, lists and signed integers over the native numbers, texts as
--   lists of character codes, results, and the numbers' text forms.
-- Buffer/Segment, Buffer/View, Buffer/Channel: `BufferSegment`, `BufferView` and `ChannelBuffer`. Segments
--   stand in a heap under owner numbers, since views share them; a view names its owner. Buffer/Copy,
--   Buffer/Owned and Buffer/Append: proofs on segments that are filled once.
-- Http1/Error: `Http1Error` by its `code`, and what else a call raises. Http1/Bytes, Http1/Chunk, Http1/Head:
--   the module's parsing functions and `_parse_head`. Http1/State, Http1/Steps: the decoder's fields, and
--   one round of the loop of `_feed_pending`, a function for each state. Http1/Codec: `feed` and `eof`.
--   Http1/Encoder: `Http1ResponseEncoder`. Http1/Body, Ends, Framing, Invariant, Rounds, Loop,
--   Smuggling, Closing: proofs.
-- Lifecycle/Generation, Metrics, State, Admission, Publish: `GatewayGeneration`, `GatewayMetrics`, and the
--   methods of `GatewayLifecycle`. A method that takes the owner lock is one step; `publish`, which takes it
--   three times, is a function for each part, and so are the locked parts of a generation's `release` and `retire`. A resource provider's callbacks are a parameter, free to
--   raise, and the calls that it receives are logged. Lifecycle/Gauges, Calls, Orders, Holders, Cleanup: proofs.
-- Routing/Path, Pattern, Router: paths, compiled patterns, and `Router`. Routing/Split, Normal, Sorting,
--   Precedence, Refusal: proofs.
-- Proxy/Headers, Retry, Pool, Rotation: header sanitation and forwarding, the retry policy, the leases of upstream
--   groups, and the turns of an endpoint's addresses, of pcc_gateway/proxy.py. Proxy/Forwarding, Kept, Leases, Turns: proofs.
-- Dns/Wire, Address, Response: names, addresses and messages of pcc_gateway/dns.py. Dns/Policy, Cache: `DnsAddressPolicy`
--   and `DnsCache`. Dns/Operation: `ResolveOperation`, with the cache and the policy that it shares passed along.
--   Dns/Config, Lines: servers, limits, and the text files. Dns/Attempts, Driver: `DnsResolveDriver`, whose transport is a
--   parameter, a function of all the calls so far. Dns/Resolver: `Resolver`. Dns/Ends, Names, Replying, Spoofing,
--   Mapped, Keys, Cached, Accepts, Rebinding, Deadlines, Bounded, Replies, Drives, Begins, Allowed, Framing: proofs.
-- Upstream/Response, Codec: `Http1UpstreamCodec` of pcc_gateway/proxy_http1.py, a function for each state of its loop. Its events
--   hold bytes by value. Upstream/Request: `encode_proxy_request_head`. Upstream/Deadline: `ProxyDeadline`. Upstream/Lengths,
--   Counting, Feeding, Injection: proofs.
-- The Tests of each part: runs of the code, and each result at a concrete input.
--
-- Bounds and fuel. The loop of `_feed_pending` runs on fuel `feed_fuel`, computed from the bytes at hand,
-- and the loops of the parsers on the length of their input; `decode_name` on 34 times that, for its 32 jumps, and
-- the upstream decoder on twice its bytes; running out is an error of its own, `out_of_fuel` or
-- `loop_cut_off`. Python's integers are the native numbers, or ℤ where a caller
-- may pass a negative one. Texts are Latin-1, as the decoder makes them: `lower`, `upper`, `isspace` and
-- `isalnum` are those of the first 256 characters.
--
-- Not modelled: the sockets and threads of pcc_gateway/server.py, the pumps of an exchange,
-- the sockets of pcc_gateway/dns_native.py, TLS, and the native provider. Locks stand for the atomic steps above.
pub mod Prelude
pub mod Buffer
pub mod Http1
pub mod Lifecycle
pub mod Routing
pub mod Proxy
pub mod Dns
pub mod Upstream
