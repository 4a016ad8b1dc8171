-- ===== src/Dns/Address.antt =====
-- Numeric addresses of pcc_gateway/dns.py: IPv4 and IPv6 texts, their canonical form and their class.
use pcc_gateway.Prelude.{
  ℕ, zero, suc, ◌+◌, ◌-◌, ◌*◌, ◌/◌, ◌%◌, Bool, true, false, not, ◌&&◌, ◌||◌, List, [], ◌∷◌, ◌++◌,
  map, Option, none, some, Text, strip, is_space, split, join, cons_first, char_in, between, ltb,
  leb, ◌==◌, if◌then◌else◌, is_empty, length, get_or, replicate, decimal_from, all_digits, decimal,
  hex,
}
use pcc_gateway.Routing.Path.{starts}
use pcc_gateway.Dns.Wire.{dns_a, dns_aaaa}

-- One part of `_parse_ipv4`.
unfoldable pub ipv4_part : Text → Option ℕ
unfolding all_digits decimal_from
ipv4_part part =
    let number = decimal_from 0 part in
    if is_empty part || ltb 3 (length part)
    then none
    else if not (all_digits part)
    then none
    else if ltb 255 number
    then none
    else if ltb 1 (length part) && starts 48 part
    then none
    else some number

-- Every text read, or none of them.
unfoldable pub ipv4_numbers : List Text → Option (List ℕ)
unfolding ipv4_part
ipv4_numbers [] = some []
ipv4_numbers (part ∷ parts) = elim (ipv4_part part) [
  | none ↦ none
  | some number ↦ elim (ipv4_numbers parts) [ none ↦ none | some rest ↦ some (number ∷ rest) ]
]

-- `_parse_ipv4`
unfoldable pub parse_ipv4 : Text → Option (List ℕ)
unfolding ipv4_numbers split
parse_ipv4 value =
    let parts = split 46 value in if not (length parts == 4) then none else ipv4_numbers parts

unfoldable pub hex_digit : ℕ → Option ℕ
hex_digit char =
    if between 48 57 char
    then some (char - 48)
    else if between 97 102 char
    then some (char - 87)
    else if between 65 70 char
    then some (char - 55)
    else none

unfoldable pub piece_value : ℕ → Text → Option ℕ
unfolding hex_digit
piece_value value [] = some value
piece_value value (char ∷ chars) = elim (hex_digit char) [
  | none ↦ none
  | some digit ↦ piece_value (value * 16 + digit) chars
]

-- `_parse_ipv6_piece`, where -1 is `none`.
unfoldable pub parse_ipv6_piece : Text → Option ℕ
unfolding piece_value
parse_ipv6_piece piece =
    if is_empty piece || ltb 4 (length piece) then none else piece_value 0 piece

-- The groups of one piece of `_ipv6_side_groups`; an IPv4 text may only be the last.
unfoldable pub piece_groups : Bool → Text → Option (List ℕ)
unfolding char_in parse_ipv4 parse_ipv6_piece
piece_groups allow_ipv4 piece =
    if char_in 46 piece
    then if not allow_ipv4 then none else elim (parse_ipv4 piece) [
      | none ↦ none
      | some ipv4 ↦ some (
          (get_or ipv4 0 0 * 256 + get_or ipv4 1 0)
          ∷ (get_or ipv4 2 0 * 256 + get_or ipv4 3 0)
          ∷ [])
    ]
    else elim (parse_ipv6_piece piece) [ none ↦ none | some value ↦ some (value ∷ []) ]

unfoldable pub side_pieces : Bool → List Text → Option (List ℕ)
unfolding piece_groups
side_pieces allow_ipv4 [] = some []
side_pieces allow_ipv4 (piece ∷ pieces) =
    elim (piece_groups (allow_ipv4 && is_empty pieces) piece) [
      | none ↦ none
      | some groups ↦ elim (side_pieces allow_ipv4 pieces) [
        | none ↦ none
        | some rest ↦ some (groups ++ rest)
      ]
    ]

-- `_ipv6_side_groups`
unfoldable pub ipv6_side_groups : Text → Bool → Option (List ℕ)
unfolding side_pieces split
ipv6_side_groups side allow_ipv4 =
    if is_empty side then some [] else side_pieces allow_ipv4 (split 58 side)

-- `value.split("::")`
unfoldable pub split_colons : Text → List Text
unfolding cons_first
split_colons [] = [] ∷ []
split_colons (c ∷ []) = (c ∷ []) ∷ []
split_colons (c ∷ d ∷ cs) =
    let after = split_colons cs in
    let rest = split_colons (d ∷ cs) in if c == 58 && d == 58 then [] ∷ after else cons_first c rest

-- The groups on the two sides of `::`, with zeros between them.
unfoldable pub filled : List ℕ → List ℕ → Option (List ℕ)
filled left right =
    if leb 8 (length left + length right)
    then none
    else some (left ++ (replicate (8 - length right - length left) 0 ++ right))

-- The groups of `_parse_ipv6`; a second `::` makes a third part.
unfoldable pub ipv6_groups : List Text → Option (List ℕ)
unfolding ipv6_side_groups filled
ipv6_groups [] = none
ipv6_groups (value ∷ []) = ipv6_side_groups value true
ipv6_groups (left_text ∷ right_text ∷ []) = elim (ipv6_side_groups left_text false) [
  | none ↦ none
  | some left ↦ elim (ipv6_side_groups right_text true) [
    | none ↦ none
    | some right ↦ filled left right
  ]
]
ipv6_groups (a ∷ b ∷ c ∷ more) = none

-- Both bytes of every group.
unfoldable pub group_bytes : List ℕ → List ℕ
group_bytes [] = []
group_bytes (group ∷ groups) = group / 256 % 256 ∷ group % 256 ∷ group_bytes groups

-- `_parse_ipv6`
unfoldable pub parse_ipv6 : Text → Option (List ℕ)
unfolding char_in split_colons ipv6_groups group_bytes
parse_ipv6 value =
    if is_empty value || char_in 37 value then none else elim (ipv6_groups (split_colons value)) [
      | none ↦ none
      | some groups ↦ if not (length groups == 8) then none else some (group_bytes groups)
    ]

-- Four numbers with points between them.
unfoldable pub dotted : List ℕ → Text
unfolding decimal join
dotted numbers = join (46 ∷ []) (map decimal numbers)

-- The groups of two bytes, in hexadecimal.
unfoldable pub byte_groups : List ℕ → List Text
unfolding hex
byte_groups [] = []
byte_groups (high ∷ []) = []
byte_groups (high ∷ low ∷ bytes) = hex (high * 256 + low) ∷ byte_groups bytes

-- `normalize_numeric_address`; a type of 0 takes both families.
unfoldable pub normalize_numeric_address : Text → ℕ → Option Text
unfolding parse_ipv4 parse_ipv6 dotted byte_groups is_space strip join
normalize_numeric_address value qtype =
    let text = strip is_space value in
    let v6 : Option Text = elim (parse_ipv6 text) [
      | none ↦ none
      | some ipv6 ↦
          if qtype == 0 || qtype == dns_aaaa then some (join (58 ∷ []) (byte_groups ipv6)) else none
    ] in
    elim (parse_ipv4 text) [
      | none ↦ v6
      | some ipv4 ↦ if qtype == 0 || qtype == dns_a then some (dotted ipv4) else v6
    ]

pub data AddressClass : Type 0 where
  unspecified loopback private link_local multicast public invalid : AddressClass

-- The class of an IPv4 address.
unfoldable pub ipv4_class : List ℕ → AddressClass
ipv4_class ipv4 =
    let first = get_or ipv4 0 0 in
    let second = get_or ipv4 1 0 in
    if first == 0
    then unspecified
    else if first == 127
    then loopback
    else if first == 10 || (first == 172 && between 16 31 second) || (first == 192 && second == 168)
    then private
    else if first == 169 && second == 254
    then link_local
    else if between 224 239 first
    then multicast
    else public

-- `n` bytes of zero in front.
unfoldable pub zeros : ℕ → List ℕ → Bool
zeros zero bytes = true
zeros (suc n) [] = false
zeros (suc n) (byte ∷ bytes) = byte == 0 && zeros n bytes

-- Ten bytes of zero, and two of ones.
unfoldable pub is_mapped : List ℕ → Bool
unfolding zeros
is_mapped ipv6 = zeros 10 ipv6 && get_or ipv6 10 0 == 255 && get_or ipv6 11 0 == 255

-- The class of an IPv6 address that is not mapped: `x & 0xFE == 0xFC` is `x / 2 == 126`.
unfoldable pub ipv6_class : List ℕ → AddressClass
unfolding zeros
ipv6_class ipv6 =
    let first = get_or ipv6 0 0 in
    if zeros 16 ipv6
    then unspecified
    else if zeros 15 ipv6 && get_or ipv6 15 0 == 1
    then loopback
    else if first / 2 == 126
    then private
    else if first == 254 && get_or ipv6 1 0 / 64 == 2
    then link_local
    else if first == 255
    then multicast
    else public

-- The text of the four bytes that a mapped address embeds.
unfoldable pub embedded : List ℕ → Text
unfolding dotted
embedded ipv6 =
    dotted (get_or ipv6 12 0 ∷ get_or ipv6 13 0 ∷ get_or ipv6 14 0 ∷ get_or ipv6 15 0 ∷ [])

-- `_address_class` calls itself on an IPv4 text, and so to a depth of two.
unfoldable pub class_at : ℕ → Text → AddressClass
unfolding parse_ipv4 ipv4_class parse_ipv6 is_mapped embedded ipv6_class
class_at zero value = invalid
class_at (suc depth) value = elim (parse_ipv4 value) [
  | some ipv4 ↦ ipv4_class ipv4
  | none ↦ elim (parse_ipv6 value) [
    | none ↦ invalid
    | some ipv6 ↦ if is_mapped ipv6 then class_at depth (embedded ipv6) else ipv6_class ipv6
  ]
]

-- `_address_class`
unfoldable pub address_class : Text → AddressClass
unfolding class_at
address_class = class_at 2
