-- ===== src/Dns/Config.antt =====
-- `DnsServer` and `DnsResolverConfig` of pcc_gateway/dns.py, and what one step of a transport returns.
use pcc_gateway.Prelude.{
  ℕ, ◌+◌, ◌-◌, ◌*◌, Bool, false, ◌&&◌, ◌||◌, List, [], ◌∷◌, Option, none, some, Text, text_eq, ltb,
  ◌==◌, if◌then◌else◌, is_empty, ℤ, pos, pos_part, ltb_ℤ, leb_ℤ, Result, ok, err,
}
use pcc_gateway.Dns.Wire.{DnsError, value_error}
use pcc_gateway.Dns.Address.{normalize_numeric_address}

pub record Server : Type 0 where
  pub address : Text
  pub port : ℕ

-- `DnsServer.__init__`
unfoldable pub new_server : Text → ℤ → Result DnsError Server
unfolding normalize_numeric_address
new_server address port = elim (normalize_numeric_address address 0) [
  | none ↦ err value_error
  | some canonical ↦
      if leb_ℤ port (pos 0) || ltb_ℤ (pos 65535) port
      then err value_error
      else ok (record { address = canonical; port = pos_part port })
]

-- Who sent a reply: nobody that the transport knows, a server, or a text.
pub data Peer : Type 0 where
  nobody : Peer
  server_peer : Server → Peer
  text_peer : Text → Peer

-- `matches_peer`
unfoldable pub matches_peer : Server → Peer → Bool
unfolding normalize_numeric_address text_eq
matches_peer server nobody = false
matches_peer server (server_peer peer) =
    text_eq peer.address server.address && peer.port == server.port
matches_peer server (text_peer peer) =
    if is_empty peer then false else elim (normalize_numeric_address peer 0) [
      | none ↦ false
      | some canonical ↦ text_eq canonical server.address && server.port == 53
    ]

pub record ResolverConfig : Type 0 where
  pub servers : List Server
  pub attempts_per_server : ℕ
  pub attempt_timeout_ms : ℕ
  pub max_invalid_replies : ℕ
  pub max_udp_bytes : ℕ
  pub max_tcp_bytes : ℕ
  pub rotate : Bool
  pub use_tcp : Bool

-- `DnsResolverConfig.__init__`, of servers that are checked already.
unfoldable pub new_config :
    List Server → ℤ → ℤ → ℤ → ℤ → ℤ → Bool → Bool → Result DnsError ResolverConfig
new_config servers attempts timeout_ms invalid udp_bytes tcp_bytes rotate use_tcp =
    if leb_ℤ attempts (pos 0)
      || leb_ℤ timeout_ms (pos 0)
      || leb_ℤ invalid (pos 0)
      || ltb_ℤ udp_bytes (pos 512)
      || ltb_ℤ tcp_bytes (pos 512)
      || ltb_ℤ (pos 65535) tcp_bytes
    then err value_error
    else ok (record {
      servers = servers;
      attempts_per_server = pos_part attempts;
      attempt_timeout_ms = pos_part timeout_ms;
      max_invalid_replies = pos_part invalid;
      max_udp_bytes = pos_part udp_bytes;
      max_tcp_bytes = pos_part tcp_bytes;
      rotate = rotate;
      use_tcp = use_tcp;
    })

-- The result of `_bounded_resolver_option`, after a prefix of value `parsed`.
unfoldable pub option_from : ℕ → ℕ → ℕ → Text → Option ℕ
option_from minimum maximum parsed [] = if ltb parsed minimum then some minimum else some parsed
option_from minimum maximum parsed (char ∷ chars) =
    let next = parsed * 10 + (char - 48) in
    let rest = option_from minimum maximum next chars in
    if ltb char 48 || ltb 57 char then none else if ltb maximum next then some maximum else rest

-- `_bounded_resolver_option`
unfoldable pub bounded_resolver_option : Text → ℕ → ℕ → Option ℕ
unfolding option_from
bounded_resolver_option value minimum maximum =
    if is_empty value then none else option_from minimum maximum 0 value

-- DNS_IO_OK, DNS_IO_WOULD_BLOCK, DNS_IO_EOF and DNS_IO_ERROR
pub data IoStatus : Type 0 where
  io_ok would_block eof io_error : IoStatus

-- `DnsIoResult`; a handle of -1 is `none`, and a count below 0 is 0, which is refused as well.
pub record IoResult : Type 0 where
  pub status : IoStatus
  pub handle : Option ℕ
  pub count : ℕ
  pub content : Text
  pub peer : Peer
  pub error : Text
