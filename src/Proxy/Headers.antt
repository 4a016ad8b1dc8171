-- ===== src/Proxy/Headers.antt =====
-- `sanitize_hop_by_hop` and `forwarded_request_headers` of pcc_gateway/proxy.py.
use pcc_gateway.Prelude.{
  Bool, not, ◌&&◌, ◌||◌, List, [], ◌∷◌, ◌++◌, Text, codes, text_eq, text_in, lower, strip, is_space,
  split, is_empty, if◌then◌else◌,
}

abbrev pub Fields : Type 0
Fields = List (Text × Text)

-- `_HOP_BY_HOP`
abbrev pub hop_by_hop : List Text
hop_by_hop =
    codes "connection"
    ∷ codes "keep-alive"
    ∷ codes "proxy-authenticate"
    ∷ codes "proxy-authorization"
    ∷ codes "te"
    ∷ codes "trailer"
    ∷ codes "transfer-encoding"
    ∷ codes "upgrade"
    ∷ []

-- `item.strip().lower()`
unfoldable pub token_of : Text → Text
token_of item = lower (strip is_space item)

-- The loop over the items of one value; `named` are the tokens so far.
unfoldable pub add_tokens : List Text → List Text → List Text
unfolding token_of
add_tokens named [] = named
add_tokens named (item ∷ items) =
    let token = token_of item in
    if not (is_empty token) && not (text_in token named)
    then add_tokens (named ++ token ∷ []) items
    else add_tokens named items

unfoldable pub named_loop : List Text → Fields → List Text
unfolding add_tokens
named_loop named [] = named
named_loop named ((name, value) ∷ rest) =
    if text_eq (lower name) (codes "connection")
    then named_loop (add_tokens named (split 44 value)) rest
    else named_loop named rest

-- `_connection_named_fields`
unfoldable pub connection_named_fields : Fields → List Text
unfolding named_loop
connection_named_fields headers = named_loop [] headers

unfoldable pub keep_fields : List Text → Fields → Fields
keep_fields dropped [] = []
keep_fields dropped ((name, value) ∷ rest) =
    let others = keep_fields dropped rest in
    if text_in (lower name) hop_by_hop || text_in (lower name) dropped
    then others
    else (lower name, value) ∷ others

-- `sanitize_hop_by_hop`
unfoldable pub sanitize_hop_by_hop : Fields → Fields
unfolding keep_fields
sanitize_hop_by_hop headers = keep_fields (connection_named_fields headers) headers

unfoldable pub is_forwarded : Text → Bool
is_forwarded name =
    text_in name
      (codes "x-forwarded-for" ∷ codes "x-forwarded-proto" ∷ codes "x-forwarded-host" ∷ [])

-- The fields that the loop of `forwarded_request_headers` keeps.
unfoldable pub kept_fields : Bool → Fields → Fields
unfolding is_forwarded
kept_fields trust [] = []
kept_fields trust ((name, value) ∷ rest) =
    let others = kept_fields trust rest in
    if is_forwarded name && not (trust && text_eq name (codes "x-forwarded-for"))
    then others
    else (name, value) ∷ others

-- The value of `incoming_for` after the loop: that of the last field, if incoming fields are trusted.
unfoldable pub incoming_for : Bool → Text → Fields → Text
incoming_for trust incoming [] = incoming
incoming_for trust incoming ((name, value) ∷ rest) =
    if trust && text_eq name (codes "x-forwarded-for")
    then incoming_for trust value rest
    else incoming_for trust incoming rest

unfoldable pub chain_of : Text → Text → Text
chain_of incoming client_ip =
    if is_empty incoming then client_ip else incoming ++ codes ", " ++ client_ip

-- `forwarded_request_headers`
unfoldable pub forwarded_request_headers : Fields → Text → Text → Text → Bool → Fields
unfolding sanitize_hop_by_hop kept_fields incoming_for chain_of
forwarded_request_headers headers client_ip scheme original_host trust =
    let output = sanitize_hop_by_hop headers in
    kept_fields trust output
    ++ (codes "x-forwarded-for", chain_of (incoming_for trust [] output) client_ip)
      ∷ (codes "x-forwarded-proto", scheme)
      ∷ (codes "x-forwarded-host", original_host)
      ∷ []
