-- ===== src/Nyansd/Response.antt =====
-- src/nyansd.cpp, the end of `sendQuery`: reading the responses out of the receive buffers.
pub mod Section
pub mod Message
pub mod Datagram
pub mod Bounds
pub mod Total
pub mod Faults
pub mod Overrun
pub mod Refused
pub mod Truncated
use nyan_sd.Base.{
  ℕ, zero, suc, ◌+◌, ◌-◌, ◌^◌, ◌%◌, Bool, true, false, not, List, [], ◌∷◌, ◌++◌, ltb, ◌==◌,
  if◌then◌else◌, equal, Bytes, ◌||◌, leb, ◌≤◌, ◌<◌, ◌≡◌, arith,
}
use nyan_sd.ByteBauble.{BbEndianness}
use nyan_sd.Nyansd.{
  MessageType, response, message_code, Protocol, all, tcp, udp, protocol_code, Service,
  blank_service, signature,
}
use nyan_sd.Nyansd.Wire.{
  Scan, ok, refused, fault, ◌>>=◌, ◌>>◌, require, read8, read_bytes, read_uint,
}

-- A code that is none of the three leaves the field of a fresh service as it is.
unfoldable pub protocol_of : ℕ → Protocol → Protocol
protocol_of prot old =
    if prot == protocol_code all
    then all
    else if prot == protocol_code tcp
    then tcp
    else if prot == protocol_code udp
    then udp
    else old

-- One round of the loop over the service sections: the service, and where the next one starts.
unfoldable pub parse_service : BbEndianness → Bytes → ℕ → Scan (Service × ℕ)
parse_service machine buffer i₀ = do
  tag ← read8 buffer i₀
  require (tag == b'S')
  let i₁ = i₀ + 1
  ipv4 ← read_uint machine 4 buffer i₁
  let i₂ = i₁ + 4
  ipv6len ← read8 buffer i₂
  let i₃ = i₂ + 1
  ipv6 ← read_bytes buffer i₃ ipv6len
  let i₄ = i₃ + ipv6len
  hostlen ← read_uint machine 2 buffer i₄
  let i₅ = i₄ + 2
  hostname ← read_bytes buffer i₅ hostlen
  let i₆ = i₅ + hostlen
  port ← read_uint machine 2 buffer i₆
  let i₇ = i₆ + 2
  prot ← read8 buffer i₇
  let i₈ = i₇ + 1
  snlen ← read_uint machine 2 buffer i₈
  let i₉ = i₈ + 2
  svname ← read_bytes buffer i₉ snlen
  let sv = record blank_service {
    ipv4 = ipv4;
    ipv6 = ipv6;
    port = port;
    hostname = hostname;
    service = svname;
    protocol = protocol_of prot blank_service.protocol;
  }
  ok (sv, i₉ + snlen)

-- Where a part of the parser leaves `index` and the vector `responses`: it goes on, it has
-- returned false, it has read outside the buffer, or the loop's fuel is used up.
pub data Walk : Type 0 where
  on : ℕ → List Service → Walk
  aborted : List Service → Walk
  crashed : Walk
  no_fuel : Walk

after_service : Scan (Service × ℕ) → List Service → (ℕ → List Service → Walk) → Walk
after_service (ok (sv, i)) out next = next i (out ++ sv ∷ [])
after_service refused out next = aborted out
after_service fault out next = crashed

-- `for (int i = 0; i < rnum; ++i)`
unfoldable pub parse_services : BbEndianness → Bytes → ℕ → ℕ → List Service → Walk
unfolding after_service
parse_services machine buffer zero index out = on index out
parse_services machine buffer (suc rounds) index out =
    after_service (parse_service machine buffer index) out
      (λ i out'. parse_services machine buffer rounds i out')

-- What the fixed part of a message leads to: `continue` at an index, or service sections there.
pub data Header : Type 0 where
  skip : ℕ → Header
  sections : ℕ → ℕ → Header

-- The signature is read at the buffer's first byte, whatever `index` is. `length - index` is an
-- unsigned 32-bit difference.
unfoldable pub parse_header : BbEndianness → Bytes → ℕ → ℕ → Scan Header
parse_header machine buffer length index = do
  sig ← read_bytes buffer 0 6
  require (equal sig signature)
  let i₁ = index + 6
  len ← read_uint machine 2 buffer i₁
  let i₂ = i₁ + 2
  require (not (ltb ((length + 2 ^ 32 - i₂) % 2 ^ 32) len))
  type ← read8 buffer i₂
  let i₃ = i₂ + 1
  if not (type == message_code response)
      then ok (skip i₃)
      else do rnum ← read8 buffer i₃; ok (sections rnum (i₃ + 1))

after_header : BbEndianness → Bytes → List Service → Scan Header → Walk
after_header machine buffer out (ok (skip i)) = on i out
after_header machine buffer out (ok (sections rnum i)) = parse_services machine buffer rnum i out
after_header machine buffer out refused = aborted out
after_header machine buffer out fault = crashed

-- The body of `while (index < n)`.
unfoldable pub parse_message : BbEndianness → Bytes → ℕ → ℕ → List Service → Walk
unfolding after_header
parse_message machine buffer length index out =
    after_header machine buffer out (parse_header machine buffer length index)

after_message : Walk → (ℕ → List Service → Walk) → Walk
after_message (on i out) next = next i out
after_message (aborted out) next = aborted out
after_message crashed next = crashed
after_message no_fuel next = no_fuel

-- `while (index < n)`, with fuel.
unfoldable pub parse_messages : ℕ → BbEndianness → Bytes → ℕ → ℕ → List Service → Walk
unfolding after_message
parse_messages zero machine buffer n index out = if ltb index n then no_fuel else on index out
parse_messages (suc fuel) machine buffer n index out = elim (ltb index n) [
  | true ↦
      after_message (parse_message machine buffer n index out)
        (λ i out'. parse_messages fuel machine buffer n i out')
  | false ↦ on index out
]

-- `new char[2048]`
abbrev pub buffer_size : ℕ
buffer_size = 2048

-- `ResponseStruct`: a buffer of 2048 bytes, of which the first `length` were received.
pub record ResponseStruct : Type 0 where
  pub bytes : Bytes
  pub length : ℕ

-- The value returned with the vector as it then is. The others are no values: an exception, which
-- leaves `sendQuery` in front of the loops here, a read outside a buffer, and fuel used up.
pub data Outcome : Type 0 where
  returned : Bool → List Service → Outcome
  thrown : Outcome
  crash : Outcome
  out_of_fuel : Outcome

after_buffer : Walk → (List Service → Outcome) → Outcome
after_buffer (on i out) next = next out
after_buffer (aborted out) next = returned false out
after_buffer crashed next = crash
after_buffer no_fuel next = out_of_fuel

-- `int n = buffers[i].length; if (n < 8)`: from 2 ^ 31 on the uint32_t becomes a negative int.
unfoldable pub is_short : ℕ → Bool
is_short n = ltb n 8 || leb (2 ^ 31) n

pub is_short-received : (n : ℕ) → 8 ≤ n → n < 2 ^ 31 → is_short n ≡ false
unfolding is_short
is_short-received n long fits = ground arith

-- The loop over the buffers. Each round of the inner loop moves `index` on, so that as many
-- rounds as bytes are enough.
unfoldable pub parse_buffers : BbEndianness → List ResponseStruct → List Service → Outcome
unfolding after_buffer
parse_buffers machine [] out = returned true out
parse_buffers machine (rs ∷ rest) out =
    let later =
      after_buffer (parse_messages rs.length machine rs.bytes rs.length 0 out)
        (λ out'. parse_buffers machine rest out') in
    if is_short rs.length then returned false out else later
