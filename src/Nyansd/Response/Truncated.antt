-- ===== src/Nyansd/Response/Truncated.antt =====
-- A response message of which the receive buffer holds the beginning only.
use nyan_sd.Base.{
  ℕ, ◌+◌, ◌-◌, ◌%◌, ◌^◌, ◌<◌, ◌≤◌, ◌≡◌, refl, ap, ◌∙◌, true, false, inl, List, [], ◌∷◌, ◌++◌, arith,
  length, take, take-long, take-prefix, All, append_assoc, append-nil, ltb, lt→ltb, equal_refl, map,
  Bytes, min,
}
use nyan_sd.ByteBauble.{BbEndianness, le_bytes}
use nyan_sd.ByteBauble.Order.{length-le_bytes}
use nyan_sd.Nyansd.{Service, signature}
use nyan_sd.Nyansd.Wire.{refused, read_bytes_lem, read_uint_lem}
use nyan_sd.Nyansd.Response.{parse_header, ResponseStruct, returned, parse_buffers, buffer_size}
use nyan_sd.Nyansd.Response.Section.{section_list}
use nyan_sd.Nyansd.Response.Message.{message, message_with, FitsMessage, length-message}
use nyan_sd.Nyansd.Response.Refused.{parse_buffers-front, parse_buffers-aborted}
use nyan_sd.Nyansd.Response.Datagram.{datagram, received, FitsDatagram, services_in}

-- What `receiveBytes` leaves of a datagram in a buffer: its first 2048 bytes. The system's receive
-- call drops the rest.
pub cut : Bytes → Bytes → ResponseStruct
cut junk m = record { bytes = take buffer_size m ++ junk; length = min (length m) buffer_size }

pub cut-received :
    (junk : Bytes) (svs : List Service)
    → length (message svs) ≤ buffer_size
    → cut junk (message svs) ≡ received (svs ∷ [], junk)
unfolding cut datagram
cut-received junk svs h =
    let short : min (length (message svs)) buffer_size ≡ length (message svs) = omega arith in
    rw (take-long buffer_size (message svs) h, short, append-nil)

pub cut-long :
    (junk m : Bytes)
    → buffer_size < length m
    → cut junk m ≡ record { bytes = take buffer_size m ++ junk; length = buffer_size }
unfolding cut
cut-long junk m h = let full : min (length m) buffer_size ≡ buffer_size = omega arith in rw full

message-prefix :
    (svs : List Service) (room : ℕ) (junk : Bytes)
    → 8 ≤ room
    → (rest : Bytes) × (take room (message svs) ++ junk
        ≡ signature ++ (le_bytes 2 (length (section_list svs) + 2) ++ rest))
unfolding message message_with
message-prefix svs room junk start =
    let len = le_bytes 2 (length (section_list svs) + 2) in
    let (rest, e) =
      take-prefix room (signature ++ len) (2 ∷ length svs ∷ section_list svs)
        (omega (arith, length-le_bytes 2 (length (section_list svs) + 2))) in
    (rest ++ junk, ap (λ xs. xs ++ junk) e ∙ append_assoc (signature ++ len) rest junk)

parse_header-cut :
    (machine : BbEndianness) (svs : List Service) (room : ℕ) (junk : Bytes)
    → FitsMessage svs
    → 8 ≤ room
    → room < length (message svs)
    → parse_header machine (take room (message svs) ++ junk) room 0 ≡ refused
unfolding parse_header
parse_header-cut machine svs room junk f start less =
    let buffer = take room (message svs) ++ junk in
    let len = length (section_list svs) + 2 in
    let (rest, form) = message-prefix svs room junk start in
    let (e0, a0) = read_bytes_lem buffer 0 signature (le_bytes 2 len ++ rest) (form, omega arith) in
    let (e1, a1) = read_uint_lem machine 2 len buffer 6 rest (inl refl) f.length_fits a0 in
    let missing : ltb ((room + 2 ^ 32 - 8) % 2 ^ 32) len ≡ true =
      lt→ltb _ _ (omega (arith, length-message svs, f.length_fits)) in
    rw (e0, equal_refl signature, e1, missing)

-- A message of which 8 bytes or more are in the buffer, but not all, ends the call: it returns
-- false with the services of the buffers before, and does not look at those behind.
pub parse_buffers-cut :
    (machine : BbEndianness) (ps : List (List (List Service) × Bytes)) (svs : List Service)
    (room : ℕ) (junk : Bytes) (later : List ResponseStruct) (out : List Service)
    → All FitsDatagram ps
    → FitsMessage svs
    → 8 ≤ room
    → room < length (message svs)
    → parse_buffers machine
        (map received ps
          ++ record { bytes = take room (message svs) ++ junk; length = room } ∷ later)
        out
      ≡ returned false (out ++ services_in ps)
parse_buffers-cut machine ps svs room junk later out fs f start less =
    parse_buffers-front machine ps
      (record { bytes = take room (message svs) ++ junk; length = room } ∷ later) out fs
    ∙ parse_buffers-aborted machine
        (record { bytes = take room (message svs) ++ junk; length = room }) later _ start
        (parse_header-cut machine svs room junk f start less)
