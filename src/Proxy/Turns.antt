-- ===== src/Proxy/Turns.antt =====
-- The order of the addresses of an endpoint of pcc_gateway/proxy.py.
use native.Mathlib.Nat.{mod-eq_of_lt, mod-eq-sub-mod, mod-lt}
use pcc_gateway.Prelude.{
  ℕ, zero, suc, ◌+◌, ◌-◌, ◌%◌, ◌≤◌, ◌<◌, ◌≡◌, refl, sym, ◌∙◌, ap, List, [], ◌∷◌, ◌++◌, Text, length,
  get_or, take, drop, drop-get_or, drop-all, arith, Bool-cases, inl, inr,
}
use pcc_gateway.Dns.Policy.{sort_texts, insert_text, texts_eq}
use pcc_gateway.Dns.Rebinding.{texts_eq→≡}
use pcc_gateway.Proxy.Rotation.{Rotation, settled, rotate_loop, ordered_addresses}

length-insert_text : (t : Text) (ts : List Text) → length (insert_text t ts) ≡ length ts + 1
unfolding insert_text
length-insert_text t [] = omega arith
length-insert_text t (u ∷ us) = ground (arith, length-insert_text t us)

length-sort_texts : (ts : List Text) → length (sort_texts ts) ≡ length ts
unfolding sort_texts
length-sort_texts [] = refl
length-sort_texts (t ∷ ts) =
    omega (arith, length-sort_texts ts, length-insert_text t (sort_texts ts))

module _ (s : List Text) (cursor : ℕ) where
  -- The addresses from the first one on.
  rotate_loop-second :
      (left index place : ℕ)
      → cursor + index ≡ length s + place
      → place + left ≤ length s
      → rotate_loop left s cursor index ≡ take left (drop place s)
  unfolding rotate_loop
  rotate_loop-second zero index place h k = refl
  rotate_loop-second (suc left) index place h k =
      let here : (cursor + index) % length s ≡ place =
        mod-eq-sub-mod (omega (arith, h)) ∙ mod-eq_of_lt (omega (arith, h, k)) ∙ omega (arith, h) in
      let rest =
        rotate_loop-second left (index + 1) (place + 1) (omega (arith, h)) (omega (arith, k)) in
      let split = drop-get_or s place [] (omega (arith, k)) in
      let next : place + 1 ≡ suc place = omega arith in
      ap (λ n. get_or s n [] ∷ rotate_loop left s cursor (index + 1)) here
      ∙ ap (λ r. get_or s place [] ∷ r) (rest ∙ ap (λ n. take left (drop n s)) next)
      ∙ ap (take (suc left)) (sym split)

  -- The addresses from the cursor on, and then those before it.
  rotate_loop-first :
      (m index : ℕ)
      → cursor + index + m ≡ length s
      → cursor ≤ length s
      → rotate_loop (m + cursor) s cursor index ≡ drop (cursor + index) s ++ take cursor s
  unfolding rotate_loop
  rotate_loop-first zero index h k =
      let over : cursor + index ≡ length s + 0 = omega (arith, h) in
      let none : drop (cursor + index) s ≡ [] = drop-all (cursor + index) s (omega (arith, h)) in
      ap (λ n. rotate_loop n s cursor index) {x = zero + cursor} {y = cursor} (omega arith)
      ∙ rotate_loop-second cursor index 0 over (omega (arith, k))
      ∙ ap (λ r. r ++ take cursor s) (sym none)
  rotate_loop-first (suc m) index h k =
      let here : (cursor + index) % length s ≡ cursor + index = mod-eq_of_lt (omega (arith, h)) in
      let rest = rotate_loop-first m (index + 1) (omega (arith, h)) k in
      let next : cursor + (index + 1) ≡ suc (cursor + index) = omega arith in
      let split = drop-get_or s (cursor + index) [] (omega (arith, h)) in
      ap (λ n. rotate_loop n s cursor index) {x = suc m + cursor} {y = suc (m + cursor)}
        (omega arith)
      ∙ ap (λ n. get_or s n [] ∷ rotate_loop (m + cursor) s cursor (index + 1)) here
      ∙ ap (λ r. get_or s (cursor + index) [] ∷ r) (rest ∙ ap (λ n. drop n s ++ take cursor s) next)
      ∙ ap (λ r. r ++ take cursor s) (sym split)

-- The cursor is within the last set of addresses.
unfoldable pub IsSteady : Rotation → Type 0
IsSteady r = r.address_cursor ≤ length r.last_address_set

settled-IsSteady :
    (r : Rotation) (s : List Text) → IsSteady r → (settled r s).address_cursor ≤ length s
unfolding settled IsSteady
settled-IsSteady r s h = elim (Bool-cases (texts_eq s r.last_address_set)) [
  | inl e ↦
      let same = texts_eq→≡ s r.last_address_set e in
      rw (e, settled) (omega (arith, h, ap length same))
  | inr e ↦ rw (e, settled) (omega arith)
]

settled-set : (r : Rotation) (s : List Text) → (settled r s).last_address_set ≡ s
unfolding settled
settled-set r s = elim (Bool-cases (texts_eq s r.last_address_set)) [
  | inl e ↦ rw (e, settled) (sym (texts_eq→≡ s r.last_address_set e))
  | inr e ↦ rw (e, settled) refl
]

-- From a cursor within its last set, a set that is not empty is answered with its sorted addresses, those
-- from the cursor on before the others. The sorted set becomes the last one, and the cursor goes on by one
-- address, from the last to the first: it is within the set again.
pub ordered_addresses-IsTurned :
    (r : Rotation) (value : Text) (values : List Text)
    → IsSteady r
    → let s = sort_texts (value ∷ values) in
      let k = (settled r s).address_cursor in
      (ordered_addresses r (value ∷ values) ≡ (
        drop k s ++ take k s,
        record { address_cursor = (k + 1) % length s; last_address_set = s },
      ))
      × IsSteady (ordered_addresses r (value ∷ values)).1
unfolding ordered_addresses IsSteady
ordered_addresses-IsTurned r value values h =
    let s = sort_texts (value ∷ values) in
    let k = (settled r s).address_cursor in
    let within = settled-IsSteady r s h in
    let size = length-sort_texts (value ∷ values) in
    let here = rotate_loop-first s k (length s - k) 0 (omega (arith, within)) within in
    let turn : rotate_loop (length s) s k 0 ≡ drop k s ++ take k s =
      ap (λ n. rotate_loop n s k 0) {x = length s} {y = length s - k + k} (omega (arith, within))
      ∙ here
      ∙ ap (λ n. drop n s ++ take k s) {x = k + 0} {y = k} (omega arith) in
    let next : (k + 1) % length s < length s = mod-lt (k + 1) (omega (arith, size)) in
    let kept = settled-set r s in (rw (turn, kept) refl, omega (arith, next, ap length kept))
