-- ===== src/Tests/Texts.antt =====
-- Addresses as texts, and integers in memory.
use nyan_sd.Base.{ℕ, ◌≤◌, ◌≡◌, refl, inl, inr, some, [], ◌∷◌, ◌++◌, arith, text, equal}
use nyan_sd.ByteBauble.{
  bb_le, bb_be, le_bytes, of_le, load, store, to_host, to_global, byte_bauble, get_host_endian,
  set_global_endianness,
}
use nyan_sd.ByteBauble.Packed.{read_packed_int, total_bytes, write_packed_int}
use nyan_sd.ByteBauble.Packed.RoundTrip.{read_packed_int-write_packed_int}
use nyan_sd.ByteBauble.Exchange.{to_host-to_global}
use nyan_sd.Nyansd.Ipv4.{
  decimal, dotted, ipv4_uint_to_string, ipv4_string_to_uint, ipv4_string_to_uint_in, find,
  find_loop, stoul, substr, parse_octets,
}
use nyan_sd.Nyansd.Ipv4.RoundTrip.{ipv4_string_to_uint-ipv4_uint_to_string}
use nyan_sd.Nyansd.LocalIp.{
  af_inet, SocketAddress, found, remote_to_local_ip, any_match, starts_with, lan_base,
  erase_after_last, before_last, first_inet,
}
use nyan_sd.Nyansd.LocalIp.Search.{AnyInterface}
use nyan_sd.Nyansd.LocalIp.Origin.{IsWithout, Answers, remote_to_local_ip-Answers}
use nyan_sd.Nyansd.SendQuery.{broadcast_address}
use nyan_sd.Tests.Data.{interfaces}

-- From a big endian machine to a little endian one, highest byte first.
exchange_example :
    let bb = set_global_endianness bb_be (byte_bauble bb_be) in
    to_host
      (byte_bauble bb_le)
      4
      (load bb_le (store bb_be 4 (to_global bb 4 0x12345678 (get_host_endian bb))))
      bb_be
    ≡ 0x12345678
exchange_example = to_host-to_global bb_be bb_le bb_be 4 0x12345678 (inr (inl refl)) (omega arith)

-- 192.168.0.42 on a big endian machine.
ipv4_text : ipv4_uint_to_string bb_be 0xC0A8002A ≡ text "192.168.0.42"
unfolding ipv4_uint_to_string store le_bytes dotted decimal
ipv4_text = refl

ipv4_example : ipv4_string_to_uint bb_be (ipv4_uint_to_string bb_be 0xC0A8002A) ≡ some 0xC0A8002A
ipv4_example = ipv4_string_to_uint-ipv4_uint_to_string bb_be 0xC0A8002A (omega arith)

abbrev sender : SocketAddress
sender = record { family = af_inet; text = text "192.168.0.7:11310" }

remote_run : remote_to_local_ip bb_le interfaces sender 7 [] ≡ found 0x0500A8C0 []
unfolding remote_to_local_ip any_match starts_with lan_base erase_after_last before_last first_inet
    equal ipv4_string_to_uint ipv4_string_to_uint_in parse_octets find find_loop substr stoul load
    of_le
remote_run = refl

host_has_no_dot : IsWithout b'.' (text "7:11310")
host_has_no_dot = omega arith

remote_example :
    AnyInterface
      (Answers bb_le af_inet (text "192.168.0" ++ b'.' ∷ []) 7 [] 0x0500A8C0 [])
      interfaces
remote_example =
    remote_to_local_ip-Answers bb_le interfaces af_inet (text "192.168.0") (text "7:11310") 7 []
      0x0500A8C0 [] host_has_no_dot remote_run

broadcast_run : broadcast_address (text "192.168.0.7") ≡ text "192.168.0.255"
unfolding broadcast_address erase_after_last before_last
broadcast_run = refl

packed_run : write_packed_int 300 ≡ (2, some 0x2AC)
unfolding write_packed_int total_bytes
packed_run = refl

lost_run : read_packed_int 0 ≡ (1, 0)
unfolding read_packed_int
lost_run = refl

packed_example :
    (n : ℕ) × (packed : ℕ) × (1 ≤ n)
    × (write_packed_int 300 ≡ (n, some packed))
    × (read_packed_int packed ≡ (n, 300))
packed_example = read_packed_int-write_packed_int 300 (omega arith)
