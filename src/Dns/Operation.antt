-- ===== src/Dns/Operation.antt =====
-- `ResolveOperation` of pcc_gateway/dns.py: one query and what is known of its answer. The cache and
-- the policy that it shares with its resolver are passed along.
use pcc_gateway.Prelude.{
  ℕ, ◌+◌, ◌-◌, ◌*◌, Bool, true, false, not, ◌&&◌, ◌||◌, List, [], ◌++◌, Option, none, some, Text,
  codes, ltb, leb, ◌==◌, if◌then◌else◌, is_empty, length, get_or, drop, pos, Result, ok, err,
}
use pcc_gateway.Dns.Wire.{
  DnsError, inactive, timeout, bad_tcp_frame, rcode, canonical_name, put_u16, build_query,
}
use pcc_gateway.Dns.Response.{Response, parse_response, answer_values}
use pcc_gateway.Dns.Policy.{AddressPolicy, accept}
use pcc_gateway.Dns.Cache.{Cache, put}

-- The errors that an operation keeps as a text, and the driver after it.
pub data Failure : Type 0 where
  no_failure cancelled timed_out nxdomain no_address no_dns_servers cached_negative : Failure
  transport_open transport_connect transport_send transport_receive : Failure
  attempt_timeout invalid_send_progress short_udp_send unexpected_eof empty_response : Failure
  response_too_large bad_tcp_frame_length : Failure
  -- a text of the transport
  transport_error : Text → Failure
  -- the code of a `DnsError`
  refused : DnsError → Failure
  retry_exhausted : Failure → Failure

pub record Operation : Type 0 where
  pub query_id : ℕ
  pub name : Text
  pub qtype : ℕ
  pub deadline_ms : ℕ
  pub query : Text
  pub use_tcp : Bool
  pub done : Bool
  pub is_cancelled : Bool
  pub values : List Text
  pub error : Failure

-- `ResolveOperation.__init__`
unfoldable pub new_operation : ℕ → Text → ℕ → ℕ → Result DnsError Operation
unfolding canonical_name build_query
new_operation query_id name qtype deadline_ms =
    elim (build_query (pos query_id) (canonical_name name) qtype) [
      | err e ↦ err e
      | ok query ↦ ok (record {
        query_id = query_id;
        name = canonical_name name;
        qtype = qtype;
        deadline_ms = deadline_ms;
        query = query;
        use_tcp = false;
        done = false;
        is_cancelled = false;
        values = [];
        error = no_failure;
      })
    ]

-- `cancel`
unfoldable pub cancel : Operation → Operation
cancel operation =
    if operation.done
    then operation
    else record operation { is_cancelled = true; done = true; error = cancelled }

-- `check_deadline`
unfoldable pub check_deadline : Operation → ℕ → Bool × Operation
check_deadline operation now_ms =
    if not operation.done && not operation.is_cancelled && leb operation.deadline_ms now_ms
    then (true, record operation { error = timed_out; done = true })
    else (false, operation)

-- What an operation works on.
pub record Shared : Type 0 where
  pub operation : Operation
  pub cache : Cache
  pub policy : AddressPolicy

-- A query with its length before it, as TCP carries it.
unfoldable pub framed : Text → Text
framed query = put_u16 (length query) ++ query

-- A TCP payload without its length.
unfoldable pub unframed : Bool → Text → Result DnsError Text
unframed false payload = ok payload
unframed true payload =
    if ltb (length payload) 2
      || not (get_or payload 0 0 * 256 + get_or payload 1 0 == length payload - 2)
    then err bad_tcp_frame
    else ok (drop 2 payload)

abbrev pub dns_source : Text
dns_source = codes "dns"

-- A name without an address.
unfoldable pub negative_answer : Shared → Failure → ℕ → Shared
unfolding put
negative_answer s why now_ms = record s {
  operation = record s.operation { done = true; error = why };
  cache = (put s.cache s.operation.name s.operation.qtype [] 0 now_ms true dns_source).1;
}

-- The addresses of a response, after the policy let them pass.
unfoldable pub positive_answer : Shared → List Text → ℕ → ℕ → Result DnsError (Option Text) × Shared
unfolding accept put
positive_answer s values ttl now_ms =
    elim (accept s.policy s.operation.name values s.operation.qtype) [
      | err e ↦ (err e, s)
      | ok (accepted, policy) ↦ (
        ok none,
        record s {
          operation = record s.operation { values = accepted; done = true };
          cache =
              (put s.cache s.operation.name s.operation.qtype accepted (ttl * 1000) now_ms false
                dns_source).1;
          policy = policy;
        },
      )
    ]

-- What `receive` makes of a response.
unfoldable pub use_response : Shared → Response → ℕ → Result DnsError (Option Text) × Shared
unfolding framed negative_answer answer_values positive_answer
use_response s response now_ms =
    if response.is_truncated && not s.operation.use_tcp
    then (
      ok (some (framed s.operation.query)),
      record s { operation = record s.operation { use_tcp = true } },
    )
    else if response.rcode == 3
    then (ok none, negative_answer s nxdomain now_ms)
    else if not (response.rcode == 0)
    then (err (rcode response.rcode), s)
    else elim (answer_values response s.operation.name s.operation.qtype) [
      | err e ↦ (err e, s)
      | ok (values, ttl) ↦
          if is_empty values
          then (ok none, negative_answer s no_address now_ms)
          else positive_answer s values ttl now_ms
    ]

-- `receive`: the framed query if the answer is to be asked for again by TCP.
unfoldable pub receive : Shared → Text → ℕ → Result DnsError (Option Text) × Shared
unfolding check_deadline unframed parse_response use_response
receive s payload now_ms =
    if s.operation.is_cancelled || s.operation.done
    then (err inactive, s)
    else if leb s.operation.deadline_ms now_ms
    then (err timeout, record s { operation = (check_deadline s.operation now_ms).1 })
    else elim (unframed s.operation.use_tcp payload) [
      | err e ↦ (err e, s)
      | ok message ↦
          elim (parse_response message s.operation.query_id s.operation.name s.operation.qtype) [
            | err e ↦ (err e, s)
            | ok response ↦ use_response s response now_ms
          ]
    ]
