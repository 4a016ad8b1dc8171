-- ===== src/Dns/Ends.antt =====
-- `decode_name` of pcc_gateway/dns.py and the model's fuel.
use native.Mathlib.Nat.{suc-mul}
use pcc_gateway.Prelude.{
  ℕ, zero, suc, ◌+◌, ◌-◌, ◌*◌, ◌%◌, ◌<◌, ◌≡◌, ◌≢◌, List, [], ◌∷◌, ◌++◌, Option, none, some, Text,
  lower, slice, length, length-append, get_or, err, arith,
}
use pcc_gateway.Dns.Wire.{out_of_fuel, decode_loop, decode_name, decode_fuel, end_at}

-- `left` jumps may still be taken.
decode_loop-ne-fuel :
    (fuel left : ℕ) (bytes : Text) (cursor : ℕ) (next : Option ℕ) (visited : List ℕ)
    (labels : List Text)
    → length visited + left ≡ 32
    → left * (length bytes + 2) + (length bytes + 1 - cursor) < fuel
    → decode_loop fuel bytes cursor next visited labels ≢ err out_of_fuel
unfolding decode_loop
decode_loop-ne-fuel zero left bytes cursor next visited labels v h = absurd (omega arith)
decode_loop-ne-fuel (suc fuel) zero bytes cursor next visited labels v h =
    let size = get_or bytes cursor 0 in
    ground (
      arith,
      decode_loop-ne-fuel fuel zero bytes (cursor + 1 + size) next visited
          (labels ++ lower (slice (cursor + 1) size bytes) ∷ []),
    )
decode_loop-ne-fuel (suc fuel) (suc left) bytes cursor next visited labels v h =
    let size = get_or bytes cursor 0 in
    let pointer = size % 64 * 256 + get_or bytes (cursor + 1) 0 in
    ground (
      arith,
      suc-mul left (length bytes + 2),
      length-append visited (pointer ∷ []),
      decode_loop-ne-fuel fuel left bytes pointer (some (end_at next (cursor + 2)))
          (visited ++ pointer ∷ []) labels,
      decode_loop-ne-fuel fuel (suc left) bytes (cursor + 1 + size) next visited
          (labels ++ lower (slice (cursor + 1) size bytes) ∷ []),
    )

-- `decode_name` ends on every input, compressed in a circle or not.
pub decode_name-ne-fuel : (bytes : Text) (offset : ℕ) → decode_name bytes offset ≢ err out_of_fuel
unfolding decode_name
decode_name-ne-fuel bytes offset =
    decode_loop-ne-fuel (decode_fuel bytes) 32 bytes offset none [] [] (omega arith) (omega arith)
