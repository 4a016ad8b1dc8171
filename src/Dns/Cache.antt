-- ===== src/Dns/Cache.antt =====
-- `DnsCache` of pcc_gateway/dns.py, which drops the name that was used the longest time ago. Its lock
-- makes each call one step.
use pcc_gateway.Prelude.{
  ℕ, ◌+◌, Bool, true, false, ◌||◌, List, [], ◌∷◌, ◌++◌, Option, none, some, Text, ltb, leb,
  if◌then◌else◌, length, ℤ, pos, pos_part, ltb_ℤ, leb_ℤ, Result, ok, err,
}
use pcc_gateway.Dns.Wire.{DnsError, value_error}
use pcc_gateway.Dns.Policy.{Key, key_eq, key_of, find_key, put_key}

-- `DnsCacheEntry`
pub record CacheEntry : Type 0 where
  pub values : List Text
  pub expires_ms : ℕ
  pub negative : Bool
  pub source : Text

-- The fields of a `DnsCache`; the keys in use are in `order`, the oldest first.
pub record Cache : Type 0 where
  pub max_entries : ℕ
  pub negative_ttl_ms : ℕ
  pub min_ttl_ms : ℕ
  pub max_ttl_ms : ℕ
  pub entries : List (Key × CacheEntry)
  pub order : List Key

-- `DnsCache.__init__`
unfoldable pub new_cache : ℤ → ℤ → ℤ → ℤ → Result DnsError Cache
new_cache max_entries negative_ttl_ms min_ttl_ms max_ttl_ms =
    if leb_ℤ max_entries (pos 0)
      || leb_ℤ negative_ttl_ms (pos 0)
      || ltb_ℤ min_ttl_ms (pos 0)
      || ltb_ℤ max_ttl_ms min_ttl_ms
    then err value_error
    else ok (record {
      max_entries = pos_part max_entries;
      negative_ttl_ms = pos_part negative_ttl_ms;
      min_ttl_ms = pos_part min_ttl_ms;
      max_ttl_ms = pos_part max_ttl_ms;
      entries = [];
      order = [];
    })

-- `key in self.order`
unfoldable pub key_in : Key → List Key → Bool
unfolding key_eq
key_in key [] = false
key_in key (other ∷ others) = key_eq other key || key_in key others

-- `self.order.remove(key)`, if the key is there.
unfoldable pub remove_key : Key → List Key → List Key
unfolding key_eq
remove_key key [] = []
remove_key key (other ∷ others) =
    let rest = remove_key key others in if key_eq other key then others else other ∷ rest

-- `del self.entries[key]`: a dictionary has a key at most once
unfoldable pub delete_key : Key → List (Key × CacheEntry) → List (Key × CacheEntry)
unfolding key_eq
delete_key key [] = []
delete_key key ((other, entry) ∷ rest) =
    let later = delete_key key rest in if key_eq other key then later else (other, entry) ∷ later

abbrev pub has_key : Key → List (Key × CacheEntry) → Bool
has_key key entries = elim (find_key key entries) [ none ↦ false | some entry ↦ true ]

-- `get`
unfoldable pub get : Cache → Text → ℕ → ℕ → Option CacheEntry × Cache
unfolding find_key delete_key remove_key
get cache name qtype now_ms =
    let key = key_of name qtype in
    elim (find_key key cache.entries) [
      | none ↦ (none, cache)
      | some entry ↦
          if leb entry.expires_ms now_ms
          then (
            none,
            record cache {
              entries = delete_key key cache.entries;
              order = remove_key key cache.order;
            },
          )
          else (some entry, record cache { order = remove_key key cache.order ++ key ∷ [] })
    ]

-- The loop of `put` that drops the oldest key that has an entry.
unfoldable pub evict_loop : List Key → List (Key × CacheEntry) → List (Key × CacheEntry) × List Key
unfolding find_key delete_key
evict_loop [] entries = (entries, [])
evict_loop (oldest ∷ order) entries =
    let rest = evict_loop order entries in
    if has_key oldest entries then (delete_key oldest entries, order) else rest

-- Room for a key.
unfoldable pub make_room : Cache → Key → List (Key × CacheEntry) × List Key
unfolding find_key remove_key evict_loop
make_room cache key =
    if has_key key cache.entries
    then (cache.entries, remove_key key cache.order)
    else if leb cache.max_entries (length cache.entries)
    then evict_loop cache.order cache.entries
    else (cache.entries, cache.order)

-- The time to live that an entry gets.
unfoldable pub clamped_ttl : Cache → ℕ → Bool → ℕ
clamped_ttl cache ttl_ms negative =
    let raised = if ltb ttl_ms cache.min_ttl_ms then cache.min_ttl_ms else ttl_ms in
    if negative
    then cache.negative_ttl_ms
    else if ltb cache.max_ttl_ms raised
    then cache.max_ttl_ms
    else raised

-- `put`
unfoldable pub put : Cache → Text → ℕ → List Text → ℕ → ℕ → Bool → Text → CacheEntry × Cache
unfolding make_room clamped_ttl put_key
put cache name qtype values ttl_ms now_ms negative source =
    let key = key_of name qtype in
    let (entries, order) = make_room cache key in
    let entry : CacheEntry = record {
      values = values;
      expires_ms = now_ms + clamped_ttl cache ttl_ms negative;
      negative = negative;
      source = source;
    } in
    (entry, record cache { entries = put_key key entry entries; order = order ++ key ∷ [] })
