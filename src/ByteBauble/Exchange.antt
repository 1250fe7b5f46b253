-- ===== src/ByteBauble/Exchange.antt =====
-- An integer that one machine sends to another, in a byte order that they agree on.
use nyan_sd.Base.{ℕ, ◌^◌, ◌<◌, ◌≡◌, refl, ◌∙◌}
use mathlib.Core.List.{reverse-reverse}
use nyan_sd.ByteBauble.{
  BbEndianness, bb_be, bb_le, le_bytes, store, load, byte_bauble, get_host_endian,
  set_global_endianness, to_global, to_host,
}
use nyan_sd.ByteBauble.Order.{
  IsWidth, swap_sized-bswap, le_bytes-bswap, length-le_bytes, le_bytes-IsByte, of_le-le_bytes,
  bswap-of_le,
}

-- What `toGlobal` prepares lies in memory in the global order.
store-set_global_endianness :
    (machine order : BbEndianness) (k x : ℕ)
    → IsWidth k
    → let bb = set_global_endianness order (byte_bauble machine) in
      store machine k (to_global bb k x (get_host_endian bb)) ≡ store order k x
unfolding store to_global byte_bauble get_host_endian set_global_endianness
store-set_global_endianness bb_le bb_le k x w = refl
store-set_global_endianness bb_be bb_be k x w = refl
store-set_global_endianness bb_le bb_be k x w = rw (swap_sized-bswap k x w, le_bytes-bswap)
store-set_global_endianness bb_be bb_le k x w =
    rw (swap_sized-bswap k x w, le_bytes-bswap) (reverse-reverse (le_bytes k x))

-- `toHost` undoes it.
to_host-store :
    (machine order : BbEndianness) (k x : ℕ)
    → IsWidth k
    → x < 256 ^ k
    → to_host (byte_bauble machine) k (load machine (store order k x)) order ≡ x
unfolding store load to_host byte_bauble
to_host-store bb_le bb_le k x w h = of_le-le_bytes k x h
to_host-store bb_be bb_be k x w h = rw (reverse-reverse (le_bytes k x)) (of_le-le_bytes k x h)
to_host-store bb_be bb_le k x w h =
    swap_sized-bswap k _ w
    ∙ bswap-of_le k (le_bytes k x) (length-le_bytes k x) (le_bytes-IsByte k x)
    ∙ of_le-le_bytes k x h
to_host-store bb_le bb_be k x w h =
    swap_sized-bswap k _ w
    ∙ bswap-of_le k (le_bytes k x) (length-le_bytes k x) (le_bytes-IsByte k x)
    ∙ of_le-le_bytes k x h

-- Whatever the byte orders of two machines, and whichever the one that they set as the global one:
-- an integer of 2, 4 or 8 bytes that one prepares by `toGlobal` and the other takes from memory and
-- turns back by `toHost` is the same integer.
pub to_host-to_global :
    (sender receiver order : BbEndianness) (k x : ℕ)
    → IsWidth k
    → x < 256 ^ k
    → let bb = set_global_endianness order (byte_bauble sender) in
      let sent = store sender k (to_global bb k x (get_host_endian bb)) in
      to_host (byte_bauble receiver) k (load receiver sent) order ≡ x
to_host-to_global sender receiver order k x w h =
    rw (store-set_global_endianness sender order k x w) (to_host-store receiver order k x w h)
