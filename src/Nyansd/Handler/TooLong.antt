-- ===== src/Nyansd/Handler/TooLong.antt =====
-- What the handler does with a broadcast message that is longer than its buffer.
use nyan_sd.Base.{
  ◌+◌, ◌-◌, ◌^◌, ◌<◌, ◌≡◌, refl, ap, ◌∙◌, false, inl, List, [], ◌∷◌, ◌++◌, arith, length, take,
  length-take, take-prefix, append_assoc, ◌==◌, equal_refl, Bytes,
}
use nyan_sd.ByteBauble.{BbEndianness, le_bytes}
use nyan_sd.ByteBauble.Order.{length-le_bytes}
use nyan_sd.Nyansd.{Service, Query, signature}
use nyan_sd.Nyansd.LocalIp.{LocalIp}
use nyan_sd.Nyansd.Wire.{read_bytes_lem, read_uint_lem}
use nyan_sd.Nyansd.SendQuery.{query_sections, query_message}
use nyan_sd.Nyansd.Handler.{
  receive_size, received_bytes, parse_broadcast, after_broadcast, handle_datagram, done,
}
use nyan_sd.Nyansd.Handler.Queries.{query_message-shape, length-query_message}

-- The message can be written, but takes more than 2048 bytes.
pub record IsTooLong (qs : List Query) : Type 0 where
  pub count_fits : length qs < 256
  pub length_fits : length (query_sections qs) + 2 < 256 ^ 2
  pub too_long : receive_size < length (query_sections qs) + 10

-- The beginning of the message, with the length field of the whole.
received_bytes-shape :
    (machine : BbEndianness) (qs : List Query)
    → IsTooLong qs
    → (rest : Bytes) × (received_bytes (query_message machine qs)
        ≡ signature ++ (le_bytes 2 (length (query_sections qs) + 2) ++ rest))
unfolding received_bytes
received_bytes-shape machine qs f =
    let len = le_bytes 2 (length (query_sections qs) + 2) in
    let (rest, e) =
      take-prefix receive_size (signature ++ len) (1 ∷ length qs ∷ query_sections qs)
        (omega (arith, length-le_bytes 2 (length (query_sections qs) + 2))) in
    (
      rest,
      ap (take receive_size) (query_message-shape machine qs f.count_fits f.length_fits)
          ∙ e
          ∙ append_assoc signature len rest,
    )

length-received_bytes :
    (machine : BbEndianness) (qs : List Query)
    → IsTooLong qs
    → length (received_bytes (query_message machine qs)) ≡ receive_size
unfolding received_bytes
length-received_bytes machine qs f = omega (
  arith,
  f.too_long,
  length-take receive_size (query_message machine qs),
  length-query_message machine qs f.count_fits f.length_fits,
)

-- The length field tells of more than was received, and the handler sends nothing.
pub handle_datagram-too_long :
    (client server : BbEndianness) (local : LocalIp) (svs : List Service) (qs : List Query)
    (junk : Bytes)
    → IsTooLong qs
    → let received = received_bytes (query_message client qs) in
      handle_datagram server local svs (received ++ junk) (length received) ≡ done []
unfolding handle_datagram after_broadcast parse_broadcast
handle_datagram-too_long client server local svs qs junk f =
    let (rest, form) = received_bytes-shape client qs f in
    let len = length (query_sections qs) + 2 in
    let buffer = received_bytes (query_message client qs) ++ junk in
    let shape : buffer ≡ signature ++ (le_bytes 2 len ++ (rest ++ junk)) =
      rw form (simp append_assoc) in
    let (e0, a0) = read_bytes_lem buffer 0 signature _ (shape, omega arith) in
    let (e1, _) = read_uint_lem server 2 len buffer 6 _ (inl refl) f.length_fits a0 in
    let differs : (receive_size - 8 == len) ≡ false = ground (arith, f.too_long) in
    rw (length-received_bytes client qs f, e0, equal_refl signature, e1, differs) refl
