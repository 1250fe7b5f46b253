-- ===== src/ByteBauble/Packed.antt =====
-- src/bytebauble.cpp: `readPackedInt` and `writePackedInt`, integers in groups of seven bits, each
-- but the last with a bit on top that says that another follows.
pub mod Bits
pub mod RoundTrip
use nyan_sd.Base.{
  ℕ, zero, suc, ◌+◌, ◌-◌, ◌*◌, ◌/◌, ◌%◌, ◌^◌, ◌<◌, ◌≤◌, ◌≡◌, refl, sym, ap, ◌∙◌, Bool, true, false,
  not, inl, inr, Option, none, some, arith, leb, ltb, ◌==◌, ==_iff, if◌then◌else◌, Bool-cases,
}

-- `(v >> i) & 1UL`, and `output |= (1UL << i)`.
abbrev pub bit : ℕ → ℕ → Bool
bit v i = v / 2 ^ i % 2 == 1

abbrev pub set_bit : ℕ → ℕ → ℕ
set_bit out i = if bit out i then out else out + 2 ^ i

-- The inner loop of both: `n` bits of `v` from `src` on go to `output` from `idx` on.
pub copy_bits : ℕ → ℕ → ℕ → ℕ → ℕ → ℕ
copy_bits zero v src idx output = output
copy_bits (suc n) v src idx output =
    copy_bits n v (src + 1) (idx + 1) (if bit v src then set_bit output idx else output)

-- The loop over the bytes, with `rounds` of them to go: what is returned, and the output.
unpack_loop : ℕ → ℕ → ℕ → ℕ → ℕ → ℕ → ℕ × ℕ
unfolding copy_bits
unpack_loop zero i packed src idx output = (i + 1, output)
unpack_loop (suc rounds) i packed src idx output =
    let output' = copy_bits 7 packed src idx output in
    let rest = unpack_loop rounds (i + 1) packed (src + 7 + 1) (idx + 7) output' in
    if not (bit packed (src + 7)) then (i + 1, output') else rest

unfoldable pub read_packed_int : ℕ → ℕ × ℕ
unfolding unpack_loop
read_packed_int packed = unpack_loop 4 0 packed 0 0 0

unfoldable pub total_bytes : ℕ → ℕ
total_bytes integer =
    if leb integer 0x80
    then 1
    else if leb integer 0x4000
    then 2
    else if leb integer 0x200000
    then 3
    else if leb integer 0x10000000
    then 4
    else 0

-- With `rounds` bytes to go; all but the last get the bit on top.
pack_loop : ℕ → ℕ → ℕ → ℕ → ℕ → ℕ
unfolding copy_bits
pack_loop zero integer src idx output = output
pack_loop (suc rounds) integer src idx output =
    let output' = copy_bits 7 integer src idx output in
    let next = idx + 7 in
    pack_loop rounds integer (src + 7) (if ltb 0 rounds then next + 1 else next)
      (if ltb 0 rounds then set_bit output' next else output')

-- The number of bytes, 0 for an integer out of range, and the output, which then is not set.
unfoldable pub write_packed_int : ℕ → ℕ × Option ℕ
unfolding pack_loop
write_packed_int integer =
    let n = total_bytes integer in
    if n == 0 then (0, none) else (n, some (pack_loop n integer 0 0 0))
