-- ===== src/ByteBauble/Packed/RoundTrip.antt =====
-- What `readPackedInt` makes of the output of `writePackedInt`.
use nyan_sd.Base.{
  ℕ, suc, ◌+◌, ◌*◌, ◌/◌, ◌%◌, ◌^◌, ◌<◌, ◌≤◌, ◌≡◌, refl, ap, ◌∙◌, Bool, true, false, inl, inr, some,
  arith, leb, ltb, ◌==◌, ◌||◌, if◌then◌else◌, Bool-cases, lt→ltb,
}
use nyan_sd.ByteBauble.Packed.{
  bit, set_bit, copy_bits, unpack_loop, read_packed_int, total_bytes, pack_loop, write_packed_int,
}
use nyan_sd.ByteBauble.Packed.Bits.{copy_bits_lem, set_bit_fresh, byte_fits}

pack_step :
    (rounds v src idx output : ℕ)
    → pack_loop (suc rounds) v src idx output
      ≡ pack_loop rounds v (src + 7) (if ltb 0 rounds then idx + 7 + 1 else idx + 7) (
          if ltb 0 rounds
          then set_bit (copy_bits 7 v src idx output) (idx + 7)
          else copy_bits 7 v src idx output)
unfolding pack_loop
pack_step rounds v src idx output = refl

-- A byte that is not the last one, and the last one.
pack_more :
    (rounds v src idx output : ℕ)
    → output < 2 ^ idx
    → pack_loop (suc (suc rounds)) v src idx output
      ≡ pack_loop
          (suc rounds)
          v
          (src + 7)
          (idx + 7 + 1)
          (output + 2 ^ idx * (v / 2 ^ src % 2 ^ 7) + 2 ^ (idx + 7))
pack_more rounds v src idx output h =
    let r = v / 2 ^ src % 2 ^ 7 in
    pack_step (suc rounds) v src idx output
    ∙ ap
        (λ b. pack_loop (suc rounds) v (src + 7) (if b then idx + 7 + 1 else idx + 7) (
          if b
          then set_bit (copy_bits 7 v src idx output) (idx + 7)
          else copy_bits 7 v src idx output))
        (lt→ltb 0 (suc rounds) (omega arith))
    ∙ ap (λ o. pack_loop (suc rounds) v (src + 7) (idx + 7 + 1) (set_bit o (idx + 7)))
        (copy_bits_lem 7 v src idx output h)
    ∙ ap (pack_loop (suc rounds) v (src + 7) (idx + 7 + 1))
        (set_bit_fresh (output + 2 ^ idx * r) (idx + 7) (byte_fits idx output r h (omega arith)))

pack_last :
    (v src idx output : ℕ)
    → output < 2 ^ idx
    → pack_loop 1 v src idx output ≡ output + 2 ^ idx * (v / 2 ^ src % 2 ^ 7)
unfolding pack_loop
pack_last v src idx output h = copy_bits_lem 7 v src idx output h

unpack_more :
    (rounds i packed src idx output : ℕ)
    → output < 2 ^ idx
    → bit packed (src + 7) ≡ true
    → unpack_loop (suc rounds) i packed src idx output
      ≡ unpack_loop rounds
          (i + 1)
          packed
          (src + 7 + 1)
          (idx + 7)
          (output + 2 ^ idx * (packed / 2 ^ src % 2 ^ 7))
unfolding unpack_loop
unpack_more rounds i packed src idx output h more =
    rw (more, copy_bits_lem 7 packed src idx output h)

unpack_last :
    (rounds i packed src idx output : ℕ)
    → output < 2 ^ idx
    → bit packed (src + 7) ≡ false
    → unpack_loop (suc rounds) i packed src idx output
      ≡ (i + 1, output + 2 ^ idx * (packed / 2 ^ src % 2 ^ 7))
unfolding unpack_loop
unpack_last rounds i packed src idx output h last =
    rw (last, copy_bits_lem 7 packed src idx output h)

-- The four integers whose top bit has no room.
abbrev pub is_lost : ℕ → Bool
is_lost x = x == 2 ^ 7 || (x == 2 ^ 14 || (x == 2 ^ 21 || x == 2 ^ 28))

one_byte : (x : ℕ) → read_packed_int (pack_loop 1 x 0 0 0) ≡ (1, x % 2 ^ 7)
unfolding read_packed_int
one_byte x =
    let packed : ℕ = 0 + 2 ^ 0 * (x / 2 ^ 0 % 2 ^ 7) in
    ap (λ p. unpack_loop 4 0 p 0 0 0) (pack_last x 0 0 0 (omega arith))
    ∙ unpack_last 3 0 packed 0 0 0 (omega arith) (ground arith)
    ∙ ap (λ y. (1, y)) (omega arith)

two_bytes : (x : ℕ) → read_packed_int (pack_loop 2 x 0 0 0) ≡ (2, x % 2 ^ 14)
unfolding read_packed_int
two_bytes x =
    let first : ℕ = 0 + 2 ^ 0 * (x / 2 ^ 0 % 2 ^ 7) + 2 ^ 7 in
    let packed : ℕ = first + 2 ^ 8 * (x / 2 ^ 7 % 2 ^ 7) in
    let low : ℕ = 0 + 2 ^ 0 * (packed / 2 ^ 0 % 2 ^ 7) in
    ap (λ p. unpack_loop 4 0 p 0 0 0)
      (pack_more 0 x 0 0 0 (omega arith) ∙ pack_last x 7 8 first (omega arith))
    ∙ unpack_more 3 0 packed 0 0 0 (omega arith) (ground arith)
    ∙ unpack_last 2 1 packed 8 7 low (omega arith) (ground arith)
    ∙ ap (λ y. (2, y)) (omega arith)

three_bytes : (x : ℕ) → read_packed_int (pack_loop 3 x 0 0 0) ≡ (3, x % 2 ^ 21)
unfolding read_packed_int
three_bytes x =
    let first : ℕ = 0 + 2 ^ 0 * (x / 2 ^ 0 % 2 ^ 7) + 2 ^ 7 in
    let second : ℕ = first + 2 ^ 8 * (x / 2 ^ 7 % 2 ^ 7) + 2 ^ 15 in
    let packed : ℕ = second + 2 ^ 16 * (x / 2 ^ 14 % 2 ^ 7) in
    let low : ℕ = 0 + 2 ^ 0 * (packed / 2 ^ 0 % 2 ^ 7) in
    let mid : ℕ = low + 2 ^ 7 * (packed / 2 ^ 8 % 2 ^ 7) in
    ap (λ p. unpack_loop 4 0 p 0 0 0)
      (pack_more 1 x 0 0 0 (omega arith)
        ∙ pack_more 0 x 7 8 first (omega arith)
        ∙ pack_last x 14 16 second (omega arith))
    ∙ unpack_more 3 0 packed 0 0 0 (omega arith) (ground arith)
    ∙ unpack_more 2 1 packed 8 7 low (omega arith) (ground arith)
    ∙ unpack_last 1 2 packed 16 14 mid (omega arith) (ground arith)
    ∙ ap (λ y. (3, y)) (omega arith)

four_bytes : (x : ℕ) → read_packed_int (pack_loop 4 x 0 0 0) ≡ (4, x % 2 ^ 28)
unfolding read_packed_int
four_bytes x =
    let first : ℕ = 0 + 2 ^ 0 * (x / 2 ^ 0 % 2 ^ 7) + 2 ^ 7 in
    let second : ℕ = first + 2 ^ 8 * (x / 2 ^ 7 % 2 ^ 7) + 2 ^ 15 in
    let third : ℕ = second + 2 ^ 16 * (x / 2 ^ 14 % 2 ^ 7) + 2 ^ 23 in
    let packed : ℕ = third + 2 ^ 24 * (x / 2 ^ 21 % 2 ^ 7) in
    let low : ℕ = 0 + 2 ^ 0 * (packed / 2 ^ 0 % 2 ^ 7) in
    let mid : ℕ = low + 2 ^ 7 * (packed / 2 ^ 8 % 2 ^ 7) in
    let high : ℕ = mid + 2 ^ 14 * (packed / 2 ^ 16 % 2 ^ 7) in
    ap (λ p. unpack_loop 4 0 p 0 0 0)
      (pack_more 2 x 0 0 0 (omega arith)
        ∙ pack_more 1 x 7 8 first (omega arith)
        ∙ pack_more 0 x 14 16 second (omega arith)
        ∙ pack_last x 21 24 third (omega arith))
    ∙ unpack_more 3 0 packed 0 0 0 (omega arith) (ground arith)
    ∙ unpack_more 2 1 packed 8 7 low (omega arith) (ground arith)
    ∙ unpack_more 1 2 packed 16 14 mid (omega arith) (ground arith)
    ∙ unpack_last 0 3 packed 24 21 high (omega arith) (ground arith)
    ∙ ap (λ y. (4, y)) (omega arith)

-- An integer up to 2 ^ 28 is written as at least one byte, and read back as the same number of
-- bytes and the same integer, but for 2 ^ 7, 2 ^ 14, 2 ^ 21 and 2 ^ 28, which are read back as 0.
pub read_packed_int-write_packed_int :
    (x : ℕ)
    → x ≤ 2 ^ 28
    → (n : ℕ) × (packed : ℕ) × (1 ≤ n)
      × (write_packed_int x ≡ (n, some packed))
      × (read_packed_int packed ≡ (n, if is_lost x then 0 else x))
unfolding write_packed_int total_bytes
read_packed_int-write_packed_int x h = elim (Bool-cases (leb x 0x80)) [
  | inl a ↦
      (1, pack_loop 1 x 0 0 0, omega arith, rw a, one_byte x ∙ ap (λ y. (1, y)) (ground arith))
  | inr a ↦ elim (Bool-cases (leb x 0x4000)) [
    | inl b ↦ (
      2,
      pack_loop 2 x 0 0 0,
      omega arith,
      rw (a, b),
      two_bytes x ∙ ap (λ y. (2, y)) (ground arith),
    )
    | inr b ↦ elim (Bool-cases (leb x 0x200000)) [
      | inl c ↦ (
        3,
        pack_loop 3 x 0 0 0,
        omega arith,
        rw (a, b, c),
        three_bytes x ∙ ap (λ y. (3, y)) (ground arith),
      )
      | inr c ↦
          let d : leb x 0x10000000 ≡ true = ground arith in
          (
            4,
            pack_loop 4 x 0 0 0,
            omega arith,
            rw (a, b, c, d),
            four_bytes x ∙ ap (λ y. (4, y)) (ground arith),
          )
    ]
  ]
]
