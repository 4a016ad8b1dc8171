-- ===== src/Dns/Lines.antt =====
-- The files that pcc_gateway/dns.py reads as text: `HostsTable` and `parse_resolver_config`.
use pcc_gateway.Prelude.{
  ℕ, ◌*◌, Bool, true, false, ◌&&◌, ◌||◌, List, [], ◌∷◌, ◌++◌, Option, none, some, Text, codes,
  text_eq, text_in, strip, is_space, char_in, cons_first, between, ltb, leb, ◌==◌, if◌then◌else◌,
  is_empty, length, ℤ, pos, pos_part, leb_ℤ, Result, ok, err,
}
use pcc_gateway.Dns.Wire.{
  DnsError, value_error, hosts_line_too_long, hosts_too_many_entries, resolver_config_too_large,
  resolver_line_too_long, canonical_name, dns_a, dns_aaaa,
}
use pcc_gateway.Dns.Address.{normalize_numeric_address}
use pcc_gateway.Dns.Policy.{Key, key_of, find_key, put_key}
use pcc_gateway.Dns.Config.{Server, ResolverConfig, new_server, new_config, bounded_resolver_option}

-- The Latin-1 characters that end a line.
unfoldable pub is_break : ℕ → Bool
is_break c = between 10 13 c || between 28 30 c || c == 133

-- `str.splitlines`
unfoldable pub splitlines : Text → List Text
unfolding is_break cons_first
splitlines [] = []
splitlines (c ∷ []) = if is_break c then [] ∷ [] else (c ∷ []) ∷ []
splitlines (c ∷ d ∷ cs) =
    let after = splitlines cs in
    let rest = splitlines (d ∷ cs) in
    if c == 13 && d == 10 then [] ∷ after else if is_break c then [] ∷ rest else cons_first c rest

-- `str.split` without a separator.
unfoldable pub words : Text → List Text
unfolding is_space cons_first
words [] = []
words (c ∷ []) = if is_space c then [] else (c ∷ []) ∷ []
words (c ∷ d ∷ cs) =
    let rest = words (d ∷ cs) in
    if is_space c then rest else if is_space d then (c ∷ []) ∷ rest else cons_first c rest

-- `text.split(sep, 1)[0]`
unfoldable pub before_char : ℕ → Text → Text
before_char sep [] = []
before_char sep (c ∷ cs) = let rest = before_char sep cs in if c == sep then [] else c ∷ rest

-- The text behind a prefix, if it has that prefix.
unfoldable pub after_prefix : Text → Text → Option Text
after_prefix [] text = some text
after_prefix (p ∷ ps) [] = none
after_prefix (p ∷ ps) (c ∷ cs) = let rest = after_prefix ps cs in if c == p then rest else none

pub record Hosts : Type 0 where
  pub max_entries : ℕ
  pub entries : List (Key × List Text)

-- One alias of an address.
unfoldable pub add_alias : Hosts → Text → ℕ → Text → Result DnsError Hosts
unfolding canonical_name find_key put_key text_in
add_alias hosts address qtype alias =
    let key = key_of alias qtype in
    if is_empty (canonical_name alias) then ok hosts else elim (find_key key hosts.entries) [
      | none ↦
          if leb hosts.max_entries (length hosts.entries)
          then err hosts_too_many_entries
          else ok (record hosts { entries = put_key key (address ∷ []) hosts.entries })
      | some values ↦
          if text_in address values
          then ok hosts
          else ok (record hosts { entries = put_key key (values ++ address ∷ []) hosts.entries })
    ]

unfoldable pub add_aliases : Hosts → Text → ℕ → List Text → Result DnsError Hosts
unfolding add_alias
add_aliases hosts address qtype [] = ok hosts
add_aliases hosts address qtype (alias ∷ aliases) = elim (add_alias hosts address qtype alias) [
  | err e ↦ err e
  | ok more ↦ add_aliases more address qtype aliases
]

-- The fields of one line.
unfoldable pub add_fields : Hosts → List Text → Result DnsError Hosts
unfolding normalize_numeric_address char_in add_aliases
add_fields hosts [] = ok hosts
add_fields hosts (first ∷ []) = ok hosts
add_fields hosts (first ∷ alias ∷ aliases) = elim (normalize_numeric_address first 0) [
  | none ↦ ok hosts
  | some address ↦
      add_aliases hosts address (if char_in 58 address then dns_aaaa else dns_a) (alias ∷ aliases)
]

unfoldable pub load_line : Hosts → Text → Result DnsError Hosts
unfolding before_char strip is_space words add_fields
load_line hosts raw_line =
    let line = strip is_space (before_char 35 raw_line) in
    if is_empty line
    then ok hosts
    else if ltb 4096 (length line)
    then err hosts_line_too_long
    else add_fields hosts (words line)

unfoldable pub load_lines : Hosts → List Text → Result DnsError Hosts
unfolding load_line
load_lines hosts [] = ok hosts
load_lines hosts (line ∷ lines) = elim (load_line hosts line) [
  | err e ↦ err e
  | ok more ↦ load_lines more lines
]

-- `load`
unfoldable pub load : Hosts → Text → Result DnsError Hosts
unfolding splitlines load_lines
load hosts text = load_lines hosts (splitlines text)

-- `HostsTable.__init__`
unfoldable pub new_hosts : Text → ℤ → Result DnsError Hosts
unfolding load
new_hosts text max_entries =
    if leb_ℤ max_entries (pos 0)
    then err value_error
    else load (record { max_entries = pos_part max_entries; entries = [] }) text

-- `lookup`
unfoldable pub lookup : Hosts → Text → ℕ → Option (List Text)
unfolding find_key
lookup hosts name qtype = find_key (key_of name qtype) hosts.entries

-- What the lines of a resolver configuration have set.
pub record Settings : Type 0 where
  pub servers : List Server
  pub attempts : ℤ
  pub timeout_ms : ℤ
  pub rotate : Bool
  pub use_tcp : Bool

unfoldable pub has_server : Text → List Server → Bool
unfolding text_eq
has_server address [] = false
has_server address (server ∷ servers) =
    (text_eq server.address address && server.port == 53) || has_server address servers

-- A `nameserver` line.
unfoldable pub add_server : Settings → Text → Result DnsError Settings
unfolding normalize_numeric_address has_server new_server
add_server s value = elim (normalize_numeric_address value 0) [
  | none ↦ ok s
  | some address ↦
      if has_server address s.servers || leb 8 (length s.servers)
      then ok s
      else elim (new_server address (pos 53)) [
        | err e ↦ err e
        | ok server ↦ ok (record s { servers = s.servers ++ server ∷ [] })
      ]
]

abbrev pub set_attempts : Settings → Option ℕ → Settings
set_attempts s none = s
set_attempts s (some parsed) = record s { attempts = pos parsed }

abbrev pub set_timeout : Settings → Option ℕ → Settings
set_timeout s none = s
set_timeout s (some parsed) = record s { timeout_ms = pos (parsed * 1000) }

-- One word of an `options` line.
unfoldable pub set_option : Settings → Text → Settings
unfolding text_eq after_prefix bounded_resolver_option
set_option s option =
    let timed : Settings = elim (after_prefix (codes "timeout:") option) [
      | none ↦ s
      | some value ↦ set_timeout s (bounded_resolver_option value 1 30)
    ] in
    if text_eq option (codes "rotate")
    then record s { rotate = true }
    else if text_eq option (codes "use-vc") || text_eq option (codes "usevc")
    then record s { use_tcp = true }
    else elim (after_prefix (codes "attempts:") option) [
      | some value ↦ set_attempts s (bounded_resolver_option value 1 5)
      | none ↦ timed
    ]

unfoldable pub set_options : Settings → List Text → Settings
unfolding set_option
set_options s [] = s
set_options s (option ∷ options) = set_options (set_option s option) options

unfoldable pub use_fields : Settings → List Text → Result DnsError Settings
unfolding text_eq add_server set_options
use_fields s [] = ok s
use_fields s (first ∷ []) = ok s
use_fields s (first ∷ second ∷ rest) =
    if text_eq first (codes "nameserver")
    then add_server s second
    else if text_eq first (codes "options")
    then ok (set_options s (second ∷ rest))
    else ok s

unfoldable pub use_line : Settings → Text → Result DnsError Settings
unfolding before_char strip is_space words use_fields
use_line s raw_line =
    let line = strip is_space (before_char 59 (before_char 35 raw_line)) in
    if is_empty line
    then ok s
    else if ltb 4096 (length line)
    then err resolver_line_too_long
    else use_fields s (words line)

unfoldable pub use_lines : Settings → List Text → Result DnsError Settings
unfolding use_line
use_lines s [] = ok s
use_lines s (line ∷ lines) = elim (use_line s line) [
  | err e ↦ err e
  | ok more ↦ use_lines more lines
]

-- `parse_resolver_config`
unfoldable pub parse_resolver_config : Text → ℤ → ℤ → Result DnsError ResolverConfig
unfolding splitlines use_lines new_config
parse_resolver_config text default_attempts default_timeout_ms =
    if ltb 65535 (length text)
    then err resolver_config_too_large
    else elim (use_lines
        (record {
          servers = [];
          attempts = default_attempts;
          timeout_ms = default_timeout_ms;
          rotate = false;
          use_tcp = false;
        })
        (splitlines text)) [
          | err e ↦ err e
          | ok s ↦
              new_config s.servers s.attempts s.timeout_ms (pos 4) (pos 4096) (pos 65535) s.rotate
                s.use_tcp
        ]
