-- ===== src/Dns/Keys.antt =====
-- Keys of the tables of pcc_gateway/dns.py, and the entries that stand under them.
use pcc_gateway.Prelude.{
  ◌+◌, ◌≤◌, ◌<◌, ◌≡◌, refl, sym, ◌∙◌, ap, true, false, ◌||◌, List, [], ◌∷◌, ◌++◌, some, text_eq_iff,
  text_eq_refl, ==_refl, if◌then◌else◌, length, arith, Bool-cases, inl, inr,
}
use pcc_gateway.Dns.Policy.{Key, key_eq, find_key, put_key}
use pcc_gateway.Dns.Cache.{CacheEntry, key_in, remove_key, delete_key, has_key}

pub key_eq_refl : (a : Key) → key_eq a a ≡ true
unfolding key_eq
key_eq_refl a = ground (arith, text_eq_refl a.name, ==_refl a.qtype)

pub key_eq→≡ : (a b : Key) → key_eq a b ≡ true → a ≡ b
unfolding key_eq
key_eq→≡ a b h =
    let names : a.name ≡ b.name = (text_eq_iff a.name b.name).0 (ground arith) in
    let qtypes : a.qtype ≡ b.qtype = ground arith in cc

key_eq-apart : (a b : Key) → key_eq a b ≡ false → key_eq b a ≡ false
key_eq-apart a b h = elim (Bool-cases (key_eq b a)) [
  | inr e ↦ e
  | inl e ↦ absurd (ground (arith, h, key_eq_refl b, ap (λ t. key_eq t b) (key_eq→≡ b a e)))
]

module _ {A : Type 0} where
  pub find-put :
      (key : Key) (value : A) (entries : List (Key × A))
      → find_key key (put_key key value entries) ≡ some value
  unfolding find_key put_key
  find-put key value [] = ground (arith, key_eq_refl key)
  find-put key value ((other, old) ∷ rest) = ground (arith, find-put key value rest)

  -- A put changes nothing under another key.
  pub find-put_other :
      (key other : Key) (value : A) (entries : List (Key × A))
      → key_eq key other ≡ false
      → find_key other (put_key key value entries) ≡ find_key other entries
  unfolding find_key put_key
  find-put_other key other value [] h = ground (arith, h)
  find-put_other key other value ((first, old) ∷ rest) h = elim (Bool-cases (key_eq first key)) [
    | inl e ↦
        let same = key_eq→≡ first key e in
        rw (e, put_key) (ground (arith, h, ap (λ k. key_eq k other) same))
    | inr e ↦ rw (e, put_key) (ground (arith, find-put_other key other value rest h))
  ]

-- The keys that have entries after a put.
pub has-put :
    (key other : Key) (entry : CacheEntry) (entries : List (Key × CacheEntry))
    → has_key other (put_key key entry entries) ≡ true
    → (key_eq key other || has_key other entries) ≡ true
has-put key other entry entries h = elim (Bool-cases (key_eq key other)) [
  | inl e ↦ ground (arith, e)
  | inr e ↦ ground (arith, e, h, find-put_other key other entry entries e)
]

-- A put makes room for a new key only.
pub length-put :
    (key : Key) (entry : CacheEntry) (entries : List (Key × CacheEntry))
    → length (put_key key entry entries)
      ≤ (if has_key key entries then length entries else length entries + 1)
unfolding put_key find_key
length-put key entry [] = omega arith
length-put key entry ((other, old) ∷ rest) = ground (arith, length-put key entry rest)

pub length-delete_at_most :
    (key : Key) (entries : List (Key × CacheEntry))
    → length (delete_key key entries) ≤ length entries
unfolding delete_key
length-delete_at_most key [] = omega arith
length-delete_at_most key ((other, old) ∷ rest) = ground (arith, length-delete_at_most key rest)

pub length-delete :
    (key : Key) (entries : List (Key × CacheEntry))
    → has_key key entries ≡ true
    → length (delete_key key entries) < length entries
unfolding delete_key find_key
length-delete key [] h = absurd (ground (arith, h))
length-delete key ((other, old) ∷ rest) h =
    ground (arith, h, length-delete key rest, length-delete_at_most key rest)

-- A deleted key has no entry, and every key that has one had one before.
pub has-delete :
    (key other : Key) (entries : List (Key × CacheEntry))
    → has_key other (delete_key key entries) ≡ true
    → (key_eq key other ≡ false) × (has_key other entries ≡ true)
unfolding delete_key find_key
has-delete key other [] h = absurd (ground (arith, h))
has-delete key other ((first, old) ∷ rest) h = elim (Bool-cases (key_eq first key)) [
  | inl e ↦
      let later = has-delete key other rest (ground (arith, h, e)) in
      let (k, l) = later in (k, ground (arith, l))
  | inr e ↦ elim (Bool-cases (key_eq first other)) [
    | inl f ↦
        let same = key_eq→≡ first other f in
        (key_eq-apart other key (ap (λ t. key_eq t key) (sym same) ∙ e), ground (arith, f))
    | inr f ↦
        let (k, l) = has-delete key other rest (ground (arith, h, e, f)) in
        (k, ground (arith, f, l))
  ]
]

pub key_in-append :
    (key : Key) (front back : List Key)
    → key_in key (front ++ back) ≡ (key_in key front || key_in key back)
unfolding key_in
key_in-append key [] back = refl
key_in-append key (other ∷ front) back = ground (arith, key_in-append key front back)

pub key_in-remove :
    (key other : Key) (order : List Key)
    → key_eq key other ≡ false
    → key_in other order ≡ true
    → key_in other (remove_key key order) ≡ true
unfolding key_in remove_key
key_in-remove key other [] h k = k
key_in-remove key other (first ∷ order) h k = elim (Bool-cases (key_eq first key)) [
  | inl e ↦
      let same = key_eq→≡ first key e in ground (arith, k, e, h, ap (λ t. key_eq t other) same)
  | inr e ↦ rw (e, remove_key) (ground (arith, k, key_in-remove key other order h))
]
