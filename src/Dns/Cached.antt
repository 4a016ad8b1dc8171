-- ===== src/Dns/Cached.antt =====
-- The bound and the promises of the cache of pcc_gateway/dns.py.
use pcc_gateway.Prelude.{
  ℕ, ◌+◌, ◌≤◌, ◌<◌, ◌≡◌, sym, ◌∙◌, ap, Bool, true, false, List, [], ◌∷◌, none, some, Text, leb, ltb,
  if◌then◌else◌, length, ℤ, ok, arith, Bool-cases, Option-cases, inl, inr,
}
use pcc_gateway.Dns.Wire.{canonical_name}
use pcc_gateway.Dns.Policy.{Key, key_eq, key_of, find_key}
use pcc_gateway.Dns.Cache.{
  Cache, CacheEntry, new_cache, key_in, remove_key, has_key, get, put, make_room, evict_loop,
  clamped_ttl,
}
use pcc_gateway.Dns.Keys.{
  key_eq_refl, key_eq→≡, find-put, has-put, length-put, length-delete, length-delete_at_most,
  has-delete, key_in-append, key_in-remove,
}

-- At most `max_entries` entries, and the key of each in the order of use.
pub record IsFitting (c : Cache) : Type 0 where
  pub room : 0 < c.max_entries
  pub size : length c.entries ≤ c.max_entries
  pub listed : (key : Key) → has_key key c.entries ≡ true → key_in key c.order ≡ true

has_some :
    (entries : List (Key × CacheEntry))
    → 0 < length entries
    → (key : Key) × (has_key key entries ≡ true)
unfolding find_key
has_some [] h = absurd (omega arith)
has_some ((key, entry) ∷ rest) h = (key, ground (arith, key_eq_refl key))

-- An eviction drops an entry, if the order lists one.
evict-length :
    (order : List Key) (entries : List (Key × CacheEntry)) (key : Key)
    → has_key key entries ≡ true
    → key_in key order ≡ true
    → length (evict_loop order entries).0 < length entries
unfolding evict_loop key_in
evict-length [] entries key h k = absurd (ground (arith, k))
evict-length (oldest ∷ order) entries key h k = elim (Bool-cases (has_key oldest entries)) [
  | inl e ↦ ground (arith, e, length-delete oldest entries e)
  | inr e ↦ elim (Bool-cases (key_eq oldest key)) [
    | inl f ↦ absurd (ground (arith, e, h, ap (λ t. has_key t entries) (key_eq→≡ oldest key f)))
    | inr f ↦ ground (arith, e, evict-length order entries key h (ground (arith, k, f)))
  ]
]

evict-listed :
    (order : List Key) (entries : List (Key × CacheEntry))
    → ((key : Key) → has_key key entries ≡ true → key_in key order ≡ true)
    → (key : Key) → has_key key (evict_loop order entries).0 ≡ true
    → key_in key (evict_loop order entries).1 ≡ true
unfolding evict_loop key_in
evict-listed [] entries all key h = all key h
evict-listed (oldest ∷ order) entries all key h = elim (Bool-cases (has_key oldest entries)) [
  | inl e ↦
      let (apart, had) = has-delete oldest key entries (ground (arith, e, h)) in
      ground (arith, e, all key had, apart)
  | inr e ↦
      let below : (other : Key) → has_key other entries ≡ true → key_in other order ≡ true =
        λ other had. elim (Bool-cases (key_eq oldest other)) [
          | inl f ↦
              absurd (ground (arith, e, had, ap (λ t. has_key t entries) (key_eq→≡ oldest other f)))
          | inr f ↦ ground (arith, all other had, f)
        ] in
      ground (arith, e, evict-listed order entries below key (ground (arith, e, h)))
]

-- What `put` finds when it has made room for a key.
record HasRoom (c : Cache) (key : Key) (entries : List (Key × CacheEntry)) (order : List Key)
    : Type 0 where
  free : (if has_key key entries then length entries else length entries + 1) ≤ c.max_entries
  others :
      (other : Key)
      → key_eq key other ≡ false
      → has_key other entries ≡ true
      → key_in other order ≡ true

make_room-HasRoom :
    (c : Cache) (key : Key) → IsFitting c → HasRoom c key (make_room c key).0 (make_room c key).1
unfolding make_room
make_room-HasRoom c key f = elim (Bool-cases (has_key key c.entries)) [
  | inl e ↦
      rw (e, make_room)
        record {
          free = let size = f.size in ground (arith, e);
          others = λ other apart had. key_in-remove key other c.order apart (f.listed other had);
        }
  | inr e ↦ elim (Bool-cases (leb c.max_entries (length c.entries))) [
    | inr g ↦
        rw (e, g, make_room)
          record { free = ground (arith, e, g); others = λ other apart had. f.listed other had }
    | inl g ↦
        let room = f.room in
        let size = f.size in
        let (first, had) = has_some c.entries (ground (arith, g)) in
        let less = evict-length c.order c.entries first had (f.listed first had) in
        rw (e, g, make_room)
          record {
            free = ground (arith, less, size);
            others =
                λ other apart had_other. evict-listed c.order c.entries f.listed other had_other;
          }
  ]
]

-- `put` keeps the cache within its limit, and each of its entries in the order of use.
put-IsFitting :
    (c : Cache) (name : Text) (qtype : ℕ) (values : List Text) (ttl_ms now_ms : ℕ) (negative : Bool)
    (source : Text)
    → IsFitting c
    → IsFitting (put c name qtype values ttl_ms now_ms negative source).1
unfolding put key_in
put-IsFitting c name qtype values ttl_ms now_ms negative source f =
    let key = key_of name qtype in
    let (entries, order) = make_room c key in
    let entry : CacheEntry = (put c name qtype values ttl_ms now_ms negative source).0 in
    let r = make_room-HasRoom c key f in
    let free = r.free in
    record {
      room = f.room;
      size = omega (arith, free, length-put key entry entries);
      listed = λ other had. elim (Bool-cases (key_eq key other)) [
        | inl e ↦ ground (arith, e, key_in-append other order (key ∷ []))
        | inr e ↦ ground (
          arith,
          e,
          key_in-append other order (key ∷ []),
          has-put key other entry entries had,
          r.others other e,
        )
      ];
    }

-- `get` does too.
get-IsFitting :
    (c : Cache) (name : Text) (qtype now_ms : ℕ)
    → IsFitting c
    → IsFitting (get c name qtype now_ms).1
unfolding get key_in
get-IsFitting c name qtype now_ms f =
    let key = key_of name qtype in
    elim (Option-cases (find_key key c.entries)) [
      | inl e ↦ rw (e, get) f
      | inr (entry, e) ↦ elim (Bool-cases (leb entry.expires_ms now_ms)) [
        | inl g ↦
            rw (e, g, get)
              record {
                room = f.room;
                size = let size = f.size in omega (arith, length-delete_at_most key c.entries);
                listed = λ other had.
                    let (apart, had_before) = has-delete key other c.entries had in
                    key_in-remove key other c.order apart (f.listed other had_before);
              }
        | inr g ↦
            rw (e, g, get)
              record {
                room = f.room;
                size = f.size;
                listed = λ other had. elim (Bool-cases (key_eq key other)) [
                  | inl k ↦
                      ground (arith, k, key_in-append other (remove_key key c.order) (key ∷ []))
                  | inr k ↦ ground (
                    arith,
                    k,
                    key_in-append other (remove_key key c.order) (key ∷ []),
                    key_in-remove key other c.order k (f.listed other had),
                  )
                ];
              }
      ]
    ]

pub data CacheCall : Type 0 where
  call_get : Text → ℕ → ℕ → CacheCall
  call_put : Text → ℕ → List Text → ℕ → ℕ → Bool → Text → CacheCall

-- A cache after some calls, the first one first.
unfoldable pub cache_after : Cache → List CacheCall → Cache
unfolding get put
cache_after c [] = c
cache_after c (call_get name qtype now_ms ∷ calls) = cache_after (get c name qtype now_ms).1 calls
cache_after c (call_put name qtype values ttl_ms now_ms negative source ∷ calls) =
    cache_after (put c name qtype values ttl_ms now_ms negative source).1 calls

after-keeps : (c : Cache) (calls : List CacheCall) → IsFitting c → IsFitting (cache_after c calls)
unfolding cache_after
after-keeps c [] f = f
after-keeps c (call_get name qtype now_ms ∷ calls) f =
    after-keeps (get c name qtype now_ms).1 calls (get-IsFitting c name qtype now_ms f)
after-keeps c (call_put name qtype values ttl_ms now_ms negative source ∷ calls) f =
    after-keeps (put c name qtype values ttl_ms now_ms negative source).1 calls
      (put-IsFitting c name qtype values ttl_ms now_ms negative source f)

new_cache-IsFitting :
    (max_entries negative_ttl_ms min_ttl_ms max_ttl_ms : ℤ) (c : Cache)
    → new_cache max_entries negative_ttl_ms min_ttl_ms max_ttl_ms ≡ ok c
    → IsFitting c
unfolding new_cache find_key
new_cache-IsFitting max_entries negative_ttl_ms min_ttl_ms max_ttl_ms c h =
    let limit : (0 < c.max_entries) × (c.entries ≡ []) = (ground arith, ground arith) in
    record {
      room = limit.0;
      size = omega (arith, ap length limit.1);
      listed = λ key had. absurd (ground (arith, ap (λ t. has_key key t) limit.1, had));
    }

-- Whatever calls a cache gets, it has at most `max_entries` entries, and the key of every entry stands in
-- the order of use, where an eviction finds it.
pub cache_after-IsFitting :
    (max_entries negative_ttl_ms min_ttl_ms max_ttl_ms : ℤ) (c : Cache) (calls : List CacheCall)
    → new_cache max_entries negative_ttl_ms min_ttl_ms max_ttl_ms ≡ ok c
    → IsFitting (cache_after c calls)
cache_after-IsFitting max_entries negative_ttl_ms min_ttl_ms max_ttl_ms c calls h =
    after-keeps c calls (new_cache-IsFitting max_entries negative_ttl_ms min_ttl_ms max_ttl_ms c h)

-- What `put` stores, `get` finds until it expires, under every name that is the same but for its case and
-- its last dots; from then on `get` finds nothing.
pub get-put :
    (c : Cache) (name other : Text) (qtype : ℕ) (values : List Text) (ttl_ms now_ms later : ℕ)
    (negative : Bool) (source : Text)
    → canonical_name name ≡ canonical_name other
    → (get (put c name qtype values ttl_ms now_ms negative source).1 other qtype later).0 ≡ (
        if ltb later (now_ms + clamped_ttl c ttl_ms negative)
        then some (put c name qtype values ttl_ms now_ms negative source).0
        else none)
unfolding get put
get-put c name other qtype values ttl_ms now_ms later negative source h =
    let key = key_of name qtype in
    let entries = (make_room c key).0 in
    let (entry, stored) = put c name qtype values ttl_ms now_ms negative source in
    let found : find_key (key_of other qtype) stored.entries ≡ some entry =
      ap (λ t. find_key (record { name = t; qtype = qtype }) stored.entries) (sym h)
      ∙ find-put key entry entries in
    ground (arith, found)
