-- ===== src/Dns/Mapped.antt =====
-- IPv4 addresses in IPv6 ones, in pcc_gateway/dns.py.
use pcc_gateway.Prelude.{
  ℕ, zero, suc, ◌<◌, ◌≡◌, refl, ◌∙◌, ap, Bool, true, false, not, ◌&&◌, [], ◌∷◌, none, some, char_in,
  split, join, decimal, digits_loop, digit_char, decimal_from, all_digits, ◌==◌, arith, Bool-cases,
  Option-cases, inl, inr,
}
use pcc_gateway.Routing.Split.{split-join}
use pcc_gateway.Dns.Address.{ipv4_part, ipv4_numbers, parse_ipv4, dotted}

all_below : ℕ → (ℕ → Bool) → Bool
all_below zero test = true
all_below (suc n) test = test n && all_below n test

all_below-lt : (k n : ℕ) (test : ℕ → Bool) → all_below k test ≡ true → n < k → test n ≡ true
unfolding all_below
all_below-lt zero n test h l = absurd (omega arith)
all_below-lt (suc k) n test h l = elim (Bool-cases (n == k)) [
  | inl e ↦ let same : n ≡ k = ground (arith, e) in ap test same ∙ ground (arith, h)
  | inr e ↦ all_below-lt k n test (ground (arith, h)) (ground (arith, e))
]

-- A byte's decimal text has no point and is read back.
byte_text : ℕ → Bool
unfolding decimal char_in ipv4_part
byte_text n =
    not (char_in 46 (decimal n))
    && (elim (ipv4_part (decimal n)) [ none ↦ false | some m ↦ m == n ])

byte_text-all : all_below 256 byte_text ≡ true
unfolding all_below byte_text digits_loop digit_char decimal_from all_digits
byte_text-all = refl

byte_lacks : (n : ℕ) → n < 256 → char_in 46 (decimal n) ≡ false
unfolding byte_text
byte_lacks n h = ground (arith, all_below-lt 256 n byte_text byte_text-all h)

byte_part : (n : ℕ) → n < 256 → ipv4_part (decimal n) ≡ some n
unfolding byte_text
byte_part n h = elim (Option-cases (ipv4_part (decimal n))) [
  | inl e ↦ absurd (ground (arith, e, all_below-lt 256 n byte_text byte_text-all h))
  | inr (m, e) ↦
      let same : m ≡ n = ground (arith, e, all_below-lt 256 n byte_text byte_text-all h) in
      e ∙ ap some same
]

-- The text of four bytes is read back as these bytes.
pub parse_ipv4-dotted :
    (a b c d : ℕ)
    → a < 256
    → b < 256
    → c < 256
    → d < 256
    → parse_ipv4 (dotted (a ∷ b ∷ c ∷ d ∷ [])) ≡ some (a ∷ b ∷ c ∷ d ∷ [])
unfolding parse_ipv4 ipv4_numbers dotted
parse_ipv4-dotted a b c d ha hb hc hd =
    let parts : split 46 (join (46 ∷ []) (decimal a ∷ decimal b ∷ decimal c ∷ decimal d ∷ []))
        ≡ decimal a ∷ decimal b ∷ decimal c ∷ decimal d ∷ [] =
      split-join 46 (decimal a) (decimal b ∷ decimal c ∷ decimal d ∷ []) (
        record { lacks = byte_lacks a ha },
        (
          record { lacks = byte_lacks b hb },
          (record { lacks = byte_lacks c hc }, (record { lacks = byte_lacks d hd }, tt)),
        ),
      ) in
    rw (parts, byte_part a ha, byte_part b hb, byte_part c hc, byte_part d hd, ipv4_numbers) refl
