-- ===== src/Dns/Response.antt =====
-- `parse_response` and `_answer_values` of pcc_gateway/dns.py.
use pcc_gateway.Prelude.{
  ℕ, zero, suc, ◌+◌, ◌*◌, ◌/◌, ◌%◌, Bool, not, ◌&&◌, ◌||◌, List, [], ◌∷◌, ◌++◌, Option, none, some,
  Text, text_eq, text_in, join, ltb, ◌==◌, if◌then◌else◌, is_empty, length, get_or, slice, Result,
  ok, err, ◌>>=◌,
}
use pcc_gateway.Dns.Wire.{
  DnsError, truncated, id_mismatch, not_response, bad_opcode, question_mismatch, too_many_answers,
  bad_cname, cname_loop, cname_depth, u16, u32, decode_name, canonical_name, dns_a, dns_cname,
  dns_aaaa, dns_class_in,
}
use pcc_gateway.Dns.Address.{dotted, byte_groups}

-- `DnsAnswer`
pub record Answer : Type 0 where
  pub name : Text
  pub qtype : ℕ
  pub content : Text
  pub ttl : ℕ

-- `DnsResponse`
pub record Response : Type 0 where
  pub query_id : ℕ
  pub is_truncated : Bool
  pub rcode : ℕ
  pub answers : List Answer

-- What stands before the data of a record.
pub record RecordHead : Type 0 where
  pub owner : Text
  pub answer_type : ℕ
  pub answer_class : ℕ
  pub ttl : ℕ
  pub rdlength : ℕ
  pub rdata_offset : ℕ

unfoldable pub record_head : Text → ℕ → Result DnsError RecordHead
unfolding u16 u32 decode_name
record_head payload start = do
  (owner, offset) ← decode_name payload start
  answer_type ← u16 payload offset
  answer_class ← u16 payload (offset + 2)
  ttl ← u32 payload (offset + 4)
  rdlength ← u16 payload (offset + 8)
  ok (record {
    owner = owner;
    answer_type = answer_type;
    answer_class = answer_class;
    ttl = ttl;
    rdlength = rdlength;
    rdata_offset = offset + 10;
  })

-- The answer that a record stands for; a record of another class or type stands for none.
unfoldable pub record_answer : Text → RecordHead → Result DnsError (Option Answer)
unfolding decode_name dotted byte_groups join
record_answer payload head =
    let rdata = slice head.rdata_offset head.rdlength payload in
    let answer : Text → Answer = λ content. record {
      name = head.owner;
      qtype = head.answer_type;
      content = content;
      ttl = head.ttl;
    } in
    if not (head.answer_class == dns_class_in)
    then ok none
    else if head.answer_type == dns_a && head.rdlength == 4
    then ok (some (answer (dotted rdata)))
    else if head.answer_type == dns_aaaa && head.rdlength == 16
    then ok (some (answer (join (58 ∷ []) (byte_groups rdata))))
    else if head.answer_type == dns_cname
    then elim (decode_name payload head.rdata_offset) [
      | err e ↦ err e
      | ok (cname, cname_end) ↦
          if ltb (head.rdata_offset + head.rdlength) cname_end
          then err bad_cname
          else ok (some (answer cname))
    ]
    else ok none

abbrev pub add_answer : Option Answer → List Answer → List Answer
add_answer none answers = answers
add_answer (some answer) answers = answers ++ answer ∷ []

-- The loop over `ancount` records.
unfoldable pub answers_loop : ℕ → Text → ℕ → List Answer → Result DnsError (List Answer)
unfolding record_head record_answer
answers_loop zero payload offset answers = ok answers
answers_loop (suc left) payload offset answers = elim (record_head payload offset) [
  | err e ↦ err e
  | ok head ↦
      let stop = head.rdata_offset + head.rdlength in
      if ltb (length payload) stop then err truncated else elim (record_answer payload head) [
        | err e ↦ err e
        | ok answer ↦ answers_loop left payload stop (add_answer answer answers)
      ]
]

-- The question that a response echoes, and the answers behind it.
unfoldable pub response_body : Text → Text → ℕ → ℕ → Result DnsError (List Answer)
unfolding u16 decode_name canonical_name text_eq answers_loop
response_body payload name qtype ancount = elim (decode_name payload 12) [
  | err e ↦ err e
  | ok (question_name, offset) ↦ elim (u16 payload offset) [
    | err e ↦ err e
    | ok question_type ↦ elim (u16 payload (offset + 2)) [
      | err e ↦ err e
      | ok question_class ↦
          if not (text_eq question_name (canonical_name name))
            || not (question_type == qtype)
            || not (question_class == dns_class_in)
          then err question_mismatch
          else answers_loop ancount payload (offset + 4) []
    ]
  ]
]

-- `parse_response`; the bits of `flags` are read by division.
unfoldable pub parse_response : Text → ℕ → Text → ℕ → Result DnsError Response
unfolding response_body
parse_response payload query_id name qtype =
    let at : ℕ → ℕ = λ i. get_or payload i 0 * 256 + get_or payload (i + 1) 0 in
    let flags = at 2 in
    let ancount = at 6 in
    if ltb (length payload) 12
    then err truncated
    else if not (at 0 == query_id)
    then err id_mismatch
    else if flags / 32768 % 2 == 0
    then err not_response
    else if not (flags / 2048 % 16 == 0)
    then err bad_opcode
    else if not (at 4 == 1)
    then err question_mismatch
    else if ltb 256 ancount
    then err too_many_answers
    else elim (response_body payload name qtype ancount) [
      | err e ↦ err e
      | ok answers ↦ ok (record {
        query_id = at 0;
        is_truncated = flags / 512 % 2 == 1;
        rcode = flags % 16;
        answers = answers;
      })
    ]

abbrev pub least : ℕ → ℕ → ℕ
least ttl other = if ltb other ttl then other else ttl

-- The answers of a name and a type, and the least time to live among them.
unfoldable pub collect : Text → ℕ → List Answer → ℕ → List Text × ℕ
unfolding text_eq
collect current qtype [] ttl = ([], ttl)
collect current qtype (answer ∷ answers) ttl =
    let mine = text_eq answer.name current && answer.qtype == qtype in
    let (values, last) =
      collect current qtype answers (if mine then least ttl answer.ttl else ttl) in
    (if mine then answer.content ∷ values else values, last)

-- The first alias of a name; the empty target if it has none.
unfoldable pub alias_of : Text → List Answer → ℕ → Text × ℕ
unfolding text_eq
alias_of current [] ttl = ([], ttl)
alias_of current (answer ∷ answers) ttl =
    let rest = alias_of current answers ttl in
    if text_eq answer.name current && answer.qtype == dns_cname
    then (answer.content, least ttl answer.ttl)
    else rest

-- The loop of `_answer_values`, with the rounds that it has left.
unfoldable pub chain_loop :
    ℕ → List Answer → ℕ → Text → ℕ → List Text → Result DnsError (List Text × ℕ)
unfolding collect alias_of text_eq text_in
chain_loop zero answers qtype current ttl visited = err cname_depth
chain_loop (suc left) answers qtype current ttl visited =
    let (values, least_ttl) = collect current qtype answers ttl in
    let (target, next_ttl) = alias_of current answers least_ttl in
    let rest = chain_loop left answers qtype target next_ttl (visited ++ current ∷ []) in
    if not (is_empty values)
    then ok (values, least_ttl)
    else if is_empty target
    then ok ([], next_ttl)
    else if text_in target visited || text_eq target current
    then err cname_loop
    else rest

-- `_answer_values`
unfoldable pub answer_values : Response → Text → ℕ → Result DnsError (List Text × ℕ)
unfolding canonical_name chain_loop
answer_values response name qtype =
    chain_loop 16 response.answers qtype (canonical_name name) 86400 []
