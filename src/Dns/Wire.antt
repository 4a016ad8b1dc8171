-- ===== src/Dns/Wire.antt =====
-- Names and numbers on the wire of pcc_gateway/dns.py, and `build_query`. Bits of a byte are read by
-- division: `x & 0xC0` is `x / 64 % 4` times 64.
use pcc_gateway.Prelude.{
  ℕ, zero, suc, ◌+◌, ◌*◌, ◌/◌, ◌%◌, Bool, true, false, not, ◌&&◌, ◌||◌, List, [], ◌∷◌, ◌++◌, Option,
  none, some, Text, lower, strip_end, split, join, between, ltb, leb, ◌==◌, if◌then◌else◌, is_empty,
  length, get_or, slice, ℤ, pos, negsuc, Result, ok, err,
}
use pcc_gateway.Routing.Path.{starts, ends}

-- `DnsError(code, …)`, and the plain `ValueError` of an argument that is out of range.
pub data DnsError : Type 0 where
  truncated bad_name bad_compression bad_label id_mismatch not_response bad_opcode : DnsError
  question_mismatch too_many_answers bad_cname : DnsError
  address_policy address_policy_private address_policy_loopback address_policy_link_local : DnsError
  address_policy_multicast address_policy_unspecified dns_rebinding : DnsError
  hosts_line_too_long hosts_too_many_entries resolver_config_too_large resolver_line_too_long :
      DnsError
  cname_loop cname_depth inactive timeout bad_tcp_frame server_mismatch : DnsError
  rcode : ℕ → DnsError
  value_error : DnsError
  -- no exception of the source: a loop of the model that was cut off
  out_of_fuel : DnsError

-- `_u16` and `_u32`
unfoldable pub u16 : Text → ℕ → Result DnsError ℕ
u16 bytes offset =
    if ltb (length bytes) (offset + 2)
    then err truncated
    else ok (get_or bytes offset 0 * 256 + get_or bytes (offset + 1) 0)

unfoldable pub u32 : Text → ℕ → Result DnsError ℕ
u32 bytes offset =
    if ltb (length bytes) (offset + 4)
    then err truncated
    else ok (
        get_or bytes offset 0 * 16777216
        + get_or bytes (offset + 1) 0 * 65536
        + get_or bytes (offset + 2) 0 * 256
        + get_or bytes (offset + 3) 0)

-- The two bytes that `_put_u16` appends.
abbrev pub put_u16 : ℕ → Text
put_u16 value = value / 256 % 256 ∷ value % 256 ∷ []

-- `name.rstrip(".").lower()`
unfoldable pub canonical_name : Text → Text
canonical_name name = lower (strip_end (λ c. c == 46) name)

unfoldable pub is_label_byte : ℕ → Bool
is_label_byte value =
    between 48 57 value || between 65 90 value || between 97 122 value || value == 45

unfoldable pub all_label_bytes : Text → Bool
unfolding is_label_byte
all_label_bytes [] = true
all_label_bytes (value ∷ values) = is_label_byte value && all_label_bytes values

unfoldable pub is_ascii : Text → Bool
is_ascii [] = true
is_ascii (value ∷ values) = ltb value 128 && is_ascii values

-- One label, with its length before it.
unfoldable pub encode_label : Text → Result DnsError Text
unfolding is_ascii all_label_bytes
encode_label label =
    if not (is_ascii label)
    then err bad_name
    else if length label == 0 || ltb 63 (length label)
    then err bad_name
    else if starts 45 label || ends 45 label
    then err bad_name
    else if not (all_label_bytes label)
    then err bad_name
    else ok (length label ∷ label)

unfoldable pub encode_labels : List Text → Result DnsError Text
unfolding encode_label
encode_labels [] = ok []
encode_labels (label ∷ labels) = elim (encode_label label) [
  | err e ↦ err e
  | ok bytes ↦ elim (encode_labels labels) [ err e ↦ err e | ok rest ↦ ok (bytes ++ rest) ]
]

-- `encode_name`
unfoldable pub encode_name : Text → Result DnsError Text
unfolding canonical_name encode_labels
encode_name name =
    let canonical = canonical_name name in
    if is_empty canonical || ltb 253 (length canonical)
    then err bad_name
    else elim (encode_labels (split 46 canonical)) [
      | err e ↦ err e
      | ok bytes ↦ ok (bytes ++ 0 ∷ [])
    ]

unfoldable pub number_in : ℕ → List ℕ → Bool
number_in n [] = false
number_in n (m ∷ ms) = n == m || number_in n ms

-- `next_offset` of a name that ends at a cursor: the end of the first pointer, if it has one.
abbrev pub end_at : Option ℕ → ℕ → ℕ
end_at none cursor = cursor
end_at (some offset) cursor = offset

-- The loop of `decode_name`; `jumps` is the length of `visited`.
unfoldable pub decode_loop :
    ℕ → Text → ℕ → Option ℕ → List ℕ → List Text → Result DnsError (Text × ℕ)
unfolding number_in is_ascii
decode_loop zero bytes cursor next visited labels = err out_of_fuel
decode_loop (suc fuel) bytes cursor next visited labels =
    let size = get_or bytes cursor 0 in
    let pointer = size % 64 * 256 + get_or bytes (cursor + 1) 0 in
    let jump =
      decode_loop fuel bytes pointer (some (end_at next (cursor + 2))) (visited ++ pointer ∷ [])
        labels in
    let raw = slice (cursor + 1) size bytes in
    let label =
      decode_loop fuel bytes (cursor + 1 + size) next visited (labels ++ lower raw ∷ []) in
    if leb (length bytes) cursor
    then err truncated
    else if size / 64 % 4 == 3
    then if leb (length bytes) (cursor + 1)
      then err truncated
      else if leb (length bytes) pointer || number_in pointer visited
      then err bad_compression
      else if ltb 32 (length visited + 1)
      then err bad_compression
      else jump
    else if not (size / 64 % 4 == 0)
    then err bad_label
    else if size == 0
    then ok (join (46 ∷ []) labels, end_at next (cursor + 1))
    else if ltb 63 size || ltb (length bytes) (cursor + 1 + size)
    then err truncated
    else if not (is_ascii raw)
    then err bad_name
    else label

-- A round goes on in the bytes behind it, or takes one of 32 jumps.
abbrev pub decode_fuel : Text → ℕ
decode_fuel bytes = 34 * (length bytes + 2)

-- `decode_name`: the name, and where the bytes behind it begin.
unfoldable pub decode_name : Text → ℕ → Result DnsError (Text × ℕ)
unfolding decode_loop
decode_name bytes offset = decode_loop (decode_fuel bytes) bytes offset none [] []

-- DNS_A, DNS_CNAME, DNS_AAAA and DNS_CLASS_IN
abbrev pub dns_a : ℕ
dns_a = 1

abbrev pub dns_cname : ℕ
dns_cname = 5

abbrev pub dns_aaaa : ℕ
dns_aaaa = 28

abbrev pub dns_class_in : ℕ
dns_class_in = 1

unfoldable pub query_of : ℕ → Text → ℕ → Result DnsError Text
unfolding encode_name
query_of query_id name qtype = elim (encode_name name) [
  | err e ↦ err e
  | ok bytes ↦ ok (
      put_u16 query_id
      ++ (put_u16 256
          ++ (put_u16 1
              ++ (put_u16 0
                  ++ (put_u16 0
                      ++ (put_u16 0 ++ (bytes ++ (put_u16 qtype ++ put_u16 dns_class_in))))))))
]

-- `build_query`
unfoldable pub build_query : ℤ → Text → ℕ → Result DnsError Text
unfolding query_of
build_query (negsuc n) name qtype = err value_error
build_query (pos query_id) name qtype =
    if ltb 65535 query_id
    then err value_error
    else if not (qtype == dns_a || qtype == dns_aaaa)
    then err value_error
    else query_of query_id name qtype
