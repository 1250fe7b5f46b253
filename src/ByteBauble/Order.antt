-- ===== src/ByteBauble/Order.antt =====
-- Whatever the host's byte order, what `toGlobal` prepares lies in memory with the lowest byte
-- first, and `toHost` reads that back.
use nyan_sd.Base.{
  ℕ, zero, suc, ◌+◌, ◌*◌, ◌/◌, ◌%◌, ◌^◌, ◌<◌, ◌≡◌, refl, sym, ap, ◌∙◌, ◌⊎◌, [], ◌∷◌, reverse, arith,
  length, All, All-append, length-append, Bytes, IsByte,
}
use mathlib.Core.List.{reverse-reverse, reverse-cons}
use nyan_sd.ByteBauble.{
  BbEndianness, bb_be, bb_le, le_bytes, of_le, store, load, bswap, byte_bauble, swap_sized,
  to_global, to_host,
}

pub length-le_bytes : (k x : ℕ) → length (le_bytes k x) ≡ k
unfolding le_bytes
length-le_bytes zero x = refl
length-le_bytes (suc k) x = ap suc (length-le_bytes k (x / 256))

pub le_bytes-IsByte : (k x : ℕ) → All IsByte (le_bytes k x)
unfolding le_bytes
le_bytes-IsByte zero x = tt
le_bytes-IsByte (suc k) x = (omega arith, le_bytes-IsByte k (x / 256))

pub of_le-le_bytes : (k x : ℕ) → x < 256 ^ k → of_le (le_bytes k x) ≡ x
unfolding le_bytes of_le
of_le-le_bytes zero x h = omega arith
of_le-le_bytes (suc k) x h = omega (arith, of_le-le_bytes k (x / 256) (omega arith))

pub le_bytes-of_le : (bs : Bytes) → All IsByte bs → le_bytes (length bs) (of_le bs) ≡ bs
unfolding le_bytes of_le
le_bytes-of_le [] h = refl
le_bytes-of_le (b ∷ bs) (hb, hbs) = cc (low, high, le_bytes-of_le bs hbs)
  where
    low : (b + 256 * of_le bs) % 256 ≡ b
    low = omega arith

    high : (b + 256 * of_le bs) / 256 ≡ of_le bs
    high = omega arith

length-reverse : (bs : Bytes) → length (reverse bs) ≡ length bs
length-reverse [] = refl
length-reverse (b ∷ bs) =
    ap length (reverse-cons b bs)
    ∙ length-append (reverse bs) (b ∷ [])
    ∙ omega (arith, length-reverse bs)

reverse-IsByte : (bs : Bytes) → All IsByte bs → All IsByte (reverse bs)
reverse-IsByte [] h = tt
reverse-IsByte (b ∷ bs) (hb, hbs) =
    rw (reverse-cons b bs)
      (All-append IsByte (reverse bs) (b ∷ []) (reverse-IsByte bs hbs) (hb, tt))

-- A swap is what reversing the bytes in memory does to a number.
pub le_bytes-bswap : (k x : ℕ) → le_bytes k (bswap k x) ≡ reverse (le_bytes k x)
unfolding bswap
le_bytes-bswap k x =
    ap (λ n. le_bytes n (of_le (reverse (le_bytes k x)))) (sym long)
    ∙ le_bytes-of_le (reverse (le_bytes k x)) (reverse-IsByte _ (le_bytes-IsByte k x))
  where
    long : length (reverse (le_bytes k x)) ≡ k
    long = length-reverse (le_bytes k x) ∙ length-le_bytes k x

pub bswap-of_le :
    (k : ℕ) (bs : Bytes) → length bs ≡ k → All IsByte bs → bswap k (of_le (reverse bs)) ≡ of_le bs
unfolding bswap
bswap-of_le k bs hk h =
    ap (λ n. of_le (reverse (le_bytes n (of_le (reverse bs))))) (sym long)
    ∙ ap (λ s. of_le (reverse s)) (le_bytes-of_le (reverse bs) (reverse-IsByte bs h))
    ∙ ap of_le (reverse-reverse bs)
  where
    long : length (reverse bs) ≡ k
    long = length-reverse bs ∙ hk

-- The sizes of the integers that the program converts.
abbrev pub IsWidth : ℕ → Type 0
IsWidth k = (k ≡ 2) ⊎ (k ≡ 4) ⊎ (k ≡ 8)

pub swap_sized-bswap : (k x : ℕ) → IsWidth k → swap_sized k x ≡ bswap k x
unfolding swap_sized
swap_sized-bswap k x w = ground arith

pub host_endian-byte_bauble : (machine : BbEndianness) → (byte_bauble machine).host_endian ≡ machine
unfolding byte_bauble
host_endian-byte_bauble bb_be = refl
host_endian-byte_bauble bb_le = refl

-- On every machine the bytes of what `toGlobal` returns for an integer of 2, 4 or 8 bytes lie in
-- memory lowest first.
pub store-to_global :
    (machine : BbEndianness) (k x : ℕ)
    → IsWidth k
    → store machine k (to_global (byte_bauble machine) k x (byte_bauble machine).host_endian)
      ≡ le_bytes k x
unfolding store to_global byte_bauble
store-to_global bb_le k x w = refl
store-to_global bb_be k x w =
    rw (swap_sized-bswap k x w, le_bytes-bswap) (reverse-reverse (le_bytes k x))

-- On every machine `toHost` of an integer of 2, 4 or 8 bytes, taken from memory as it was
-- received, is the number that its bytes stand for, lowest first.
pub to_host-load :
    (machine : BbEndianness) (k : ℕ) (bs : Bytes)
    → IsWidth k
    → length bs ≡ k
    → All IsByte bs
    → to_host (byte_bauble machine) k (load machine bs) bb_le ≡ of_le bs
unfolding load to_host byte_bauble
to_host-load bb_le k bs w hk h = refl
to_host-load bb_be k bs w hk h = swap_sized-bswap k (of_le (reverse bs)) w ∙ bswap-of_le k bs hk h

-- An integer that is stored and loaded again is the same, and takes as many bytes as its size.
pub load-store :
    (machine : BbEndianness) (k x : ℕ) → x < 256 ^ k → load machine (store machine k x) ≡ x
unfolding load store
load-store bb_le k x h = of_le-le_bytes k x h
load-store bb_be k x h = rw (reverse-reverse (le_bytes k x)) (of_le-le_bytes k x h)

pub length-store : (machine : BbEndianness) (k x : ℕ) → length (store machine k x) ≡ k
unfolding store
length-store bb_le k x = length-le_bytes k x
length-store bb_be k x = length-reverse (le_bytes k x) ∙ length-le_bytes k x

pub store-IsByte : (machine : BbEndianness) (k x : ℕ) → All IsByte (store machine k x)
unfolding store
store-IsByte bb_le k x = le_bytes-IsByte k x
store-IsByte bb_be k x = reverse-IsByte (le_bytes k x) (le_bytes-IsByte k x)
