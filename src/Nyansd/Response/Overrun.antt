-- ===== src/Nyansd/Response/Overrun.antt =====
-- A length in a section that leads out of the buffer.
use nyan_sd.Base.{
  ℕ, zero, suc, ◌+◌, ◌-◌, ◌%◌, ◌^◌, ◌<◌, ◌≤◌, ◌≡◌, refl, ap, false, List, [], ◌∷◌, ◌++◌, arith,
  length, length-append, length-drop, append_assoc, leb, le→ltb, lt→ltb, equal_refl, inl, inr,
  Bytes,
}
use nyan_sd.ByteBauble.{BbEndianness, le_bytes}
use nyan_sd.Nyansd.{Service, signature}
use nyan_sd.Nyansd.Wire.{fault, At, read_bytes, read8_lem, read_bytes_lem, read_uint_lem}
use nyan_sd.Nyansd.Response.{
  is_short-received, parse_service, parse_services, parse_header, parse_message, after_message,
  parse_messages, crash, crashed, ResponseStruct, parse_buffers,
}

-- A response message whose one section gives its hostname `hostlen` bytes, and ends with `name`.
unfoldable pub long_host : ℕ → Bytes → Bytes
long_host hostlen name =
    signature
    ++ (le_bytes 2 (length name + 10)
        ++ (2 ∷ 1 ∷ b'S' ∷ (le_bytes 4 0 ++ (0 ∷ (le_bytes 2 hostlen ++ name)))))

read_bytes-fault :
    (buffer : Bytes) (index len : ℕ) (rest : Bytes)
    → At buffer index rest
    → length rest < len
    → read_bytes buffer index len ≡ fault
unfolding read_bytes
read_bytes-fault buffer index len rest h few =
    let outside : leb (index + len) (length buffer) ≡ false =
      ground (arith, length-drop index buffer, ap length h.0) in
    rw outside

parse_service-fault :
    (machine : BbEndianness) (hostlen : ℕ) (name buffer : Bytes) (i : ℕ)
    → hostlen < 256 ^ 2
    → length name < hostlen
    → At buffer i (b'S' ∷ (le_bytes 4 0 ++ (0 ∷ (le_bytes 2 hostlen ++ name))))
    → parse_service machine buffer i ≡ fault
unfolding parse_service
parse_service-fault machine hostlen name buffer i fits few h =
    let (e0, a0) = read8_lem buffer i _ _ h in
    let (e1, a1) = read_uint_lem machine 4 0 buffer _ _ (inr (inl refl)) (omega arith) a0 in
    let (e2, a2) = read8_lem buffer _ _ _ a1 in
    let (e3, a3) = read_bytes_lem buffer _ [] _ a2 in
    let (e4, a4) = read_uint_lem machine 2 hostlen buffer _ _ (inl refl) fits a3 in
    rw (e0, e1, e2, e3, e4, read_bytes-fault buffer _ hostlen name a4 few)

length-long_host : (hostlen : ℕ) (name : Bytes) → length (long_host hostlen name) ≡ length name + 18
unfolding long_host le_bytes
length-long_host hostlen name = omega arith

parse_messages-crashed :
    (fuel : ℕ) (machine : BbEndianness) (hostlen k : ℕ) (buffer : Bytes) (n : ℕ) (name : Bytes)
    (out : List Service)
    → hostlen < 256 ^ 2
    → k + 10 < 256 ^ 2
    → length name < hostlen
    → n ≡ k + 18
    → 0 < fuel
    → At buffer 0 (
        signature
        ++ (le_bytes 2 (k + 10)
            ++ (2 ∷ 1 ∷ b'S' ∷ (le_bytes 4 0 ++ (0 ∷ (le_bytes 2 hostlen ++ name))))))
    → parse_messages fuel machine buffer n 0 out ≡ crashed
unfolding parse_messages parse_message parse_header parse_services
parse_messages-crashed zero machine hostlen k buffer n name out fits short few e some h =
    absurd (omega arith)
parse_messages-crashed (suc fuel) machine hostlen k buffer n name out fits short few e some h =
    let (e0, a0) = read_bytes_lem buffer 0 signature _ h in
    let (e1, a1) = read_uint_lem machine 2 (k + 10) buffer 6 _ (inl refl) short a0 in
    let (e2, a2) = read8_lem buffer 8 _ _ a1 in
    let (e3, a3) = read8_lem buffer 9 _ _ a2 in
    let enough : k + 10 ≤ (n + 2 ^ 32 - 8) % 2 ^ 32 = omega arith in
    rw (
      lt→ltb 0 n (omega arith),
      parse_messages,
      e0,
      equal_refl signature,
      e1,
      le→ltb _ _ enough,
      e2,
      e3,
      parse_service-fault machine hostlen name buffer 10 fits few a3,
      after_message,
    )

-- When a message has a section whose hostname is said, by a number of 16 bits, to be longer than
-- the rest of the buffer, the parser reads outside the buffer. The length of the message fits its
-- 16 bits.
pub parse_buffers-long_host :
    (machine : BbEndianness) (hostlen : ℕ) (name junk : Bytes) (later : List ResponseStruct)
    (out : List Service)
    → hostlen < 256 ^ 2
    → length name + 10 < 256 ^ 2
    → length name + length junk < hostlen
    → parse_buffers machine
        (record { bytes = long_host hostlen name ++ junk; length = length (long_host hostlen name) }
          ∷ later)
        out
      ≡ crash
unfolding parse_buffers
parse_buffers-long_host machine hostlen name junk later out fits short few =
    let long = length-long_host hostlen name in
    rw (
      is_short-received (length (long_host hostlen name)) (omega arith) (omega arith),
      parse_messages-crashed (length (long_host hostlen name)) machine hostlen (length name)
          (long_host hostlen name ++ junk) (length (long_host hostlen name)) (name ++ junk) out fits
          short (omega (arith, length-append name junk)) long (omega arith) (shape, omega arith),
    )
  where
    shape :
        long_host hostlen name ++ junk
        ≡ signature
          ++ (le_bytes 2 (length name + 10)
              ++ (2 ∷ 1 ∷ b'S' ∷ (le_bytes 4 0 ++ (0 ∷ (le_bytes 2 hostlen ++ (name ++ junk))))))
    shape = unfold long_host in simp append_assoc
