-- ===== src/ByteBauble.antt =====
-- src/bytebauble.h and src/bytebauble.cpp: byte order. An integer of `k` bytes is a number below
-- 256 ^ k; `store` and `load` are how the host keeps it in memory, which the program reads and
-- writes through casted pointers.
pub mod Order
pub mod Exchange
pub mod Packed
use nyan_sd.Base.{
  ℕ, zero, suc, ◌+◌, ◌*◌, ◌/◌, ◌%◌, Bool, true, false, List, [], ◌∷◌, reverse, ◌==◌, if◌then◌else◌,
  Bytes,
}

-- `BBEndianness`
pub data BbEndianness : Type 0 where
  bb_be bb_le : BbEndianness

abbrev pub same_endian : BbEndianness → BbEndianness → Bool
same_endian bb_be bb_be = true
same_endian bb_le bb_le = true
same_endian _ _ = false

-- The `k` low bytes of a number, lowest first, and the number that such bytes stand for.
unfoldable pub le_bytes : ℕ → ℕ → Bytes
le_bytes zero x = []
le_bytes (suc k) x = x % 256 ∷ le_bytes k (x / 256)

unfoldable pub of_le : Bytes → ℕ
of_le [] = 0
of_le (b ∷ bs) = b + 256 * of_le bs

-- A number's bytes in the memory of a host, and back.
unfoldable pub store : BbEndianness → ℕ → ℕ → Bytes
store bb_le k x = le_bytes k x
store bb_be k x = reverse (le_bytes k x)

unfoldable pub load : BbEndianness → Bytes → ℕ
load bb_le bs = of_le bs
load bb_be bs = of_le (reverse bs)

-- `__builtin_bswap16`, `32` and `64`: the bytes in reverse order.
unfoldable pub bswap : ℕ → ℕ → ℕ
bswap k x = of_le (reverse (le_bytes k x))

-- The class: its two fields start as little endian.
pub record ByteBauble : Type 0 where
  pub global_endian : BbEndianness
  pub host_endian : BbEndianness

-- `*((uint8_t*) &bytes)`
first_byte : Bytes → ℕ
first_byte [] = 0
first_byte (b ∷ _) = b

-- The constructor's check: the first byte of a 16-bit 1 in the memory of the machine.
unfoldable pub detect_host_endian : BbEndianness → ByteBauble → ByteBauble
unfolding store le_bytes first_byte
detect_host_endian machine bb = record bb {
  host_endian = if first_byte (store machine 2 1) == 1 then bb_le else bb_be;
}

unfoldable pub byte_bauble : BbEndianness → ByteBauble
unfolding detect_host_endian
byte_bauble machine =
    detect_host_endian machine (record { global_endian = bb_le; host_endian = bb_le })

unfoldable pub get_host_endian : ByteBauble → BbEndianness
get_host_endian bb = bb.host_endian

unfoldable pub set_global_endianness : BbEndianness → ByteBauble → ByteBauble
set_global_endianness end bb = record bb { global_endian = end }

-- The branch on `sizeof(in)` that `toGlobal` and `toHost` share; other sizes give 0.
unfoldable pub swap_sized : ℕ → ℕ → ℕ
swap_sized bytesize x =
    if bytesize == 2
    then bswap 2 x
    else if bytesize == 4
    then bswap 4 x
    else if bytesize == 8
    then bswap 8 x
    else 0

unfoldable pub to_global : ByteBauble → ℕ → ℕ → BbEndianness → ℕ
to_global bb bytesize x end = if same_endian end bb.global_endian then x else swap_sized bytesize x

unfoldable pub to_host : ByteBauble → ℕ → ℕ → BbEndianness → ℕ
to_host bb bytesize x end = if same_endian end bb.host_endian then x else swap_sized bytesize x
