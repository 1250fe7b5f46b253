-- ===== src/Nyansd/Response/Refused.antt =====
-- A datagram that ends the reading of the responses.
use nyan_sd.Base.{
  Bool-cases, inr, ℕ, zero, suc, ◌+◌, ◌-◌, ◌%◌, ◌^◌, ◌<◌, ◌≤◌, ◌≡◌, ◌≢◌, refl, sym, ap, ◌∙◌, subst,
  true, false, inl, List, [], ◌∷◌, ◌++◌, arith, length, All, append_assoc, append-nil, ltb, le→ltb,
  lt→ltb, equal, equal_iff, equal_refl, ◌==◌, map, Bytes,
}
use nyan_sd.ByteBauble.{BbEndianness, le_bytes}
use nyan_sd.Nyansd.{Service, signature}
use nyan_sd.Nyansd.Wire.{ok, refused, read_bytes, read8_lem, read_bytes_lem, read_uint_lem}
use nyan_sd.Nyansd.Response.{
  is_short, is_short-received, parse_service, parse_services, parse_header, aborted, parse_message,
  parse_messages, ResponseStruct, Outcome, returned, crash, parse_buffers, buffer_size,
}
use nyan_sd.Nyansd.Response.Overrun.{long_host, parse_buffers-long_host}
use nyan_sd.Nyansd.Response.Datagram.{
  concat, datagram, received, FitsDatagram, services_in, parse_messages-datagram, Signed-datagram,
  length-datagram,
}

-- The buffers that hold response messages are read, and then the others.
pub parse_buffers-front :
    (machine : BbEndianness) (ps : List (List (List Service) × Bytes)) (later : List ResponseStruct)
    (out : List Service)
    → All FitsDatagram ps
    → parse_buffers machine (map received ps ++ later) out
      ≡ parse_buffers machine later (out ++ services_in ps)
unfolding parse_buffers services_in
parse_buffers-front machine [] later out fs =
    ap (parse_buffers machine later) (sym (append-nil out))
parse_buffers-front machine ((svss, behind) ∷ ps) later out (g, gs) =
    rw
      (
        is_short-received _ (length-datagram svss g.some_message) (omega (arith, g.length_fits)),
        parse_messages-datagram (length (datagram svss)) machine svss (datagram svss ++ behind)
            (length (datagram svss)) 0 out behind g.each_fits
            (Signed-datagram svss behind g.some_message) (refl, omega arith) (omega arith)
            (omega (arith, g.length_fits)) (omega arith),
        parse_buffers-front machine ps later (out ++ concat svss) gs,
      )
      (ap (parse_buffers machine later) (append_assoc out (concat svss) (services_in ps)))

parse_messages-aborted :
    (machine : BbEndianness) (fuel : ℕ) (bytes : Bytes) (n : ℕ) (out : List Service)
    → 0 < n
    → 0 < fuel
    → parse_message machine bytes n 0 out ≡ aborted out
    → parse_messages fuel machine bytes n 0 out ≡ aborted out
unfolding parse_messages
parse_messages-aborted machine zero bytes n out some some' e = absurd (omega arith)
parse_messages-aborted machine (suc fuel) bytes n out some some' e =
    rw (lt→ltb 0 n some, parse_messages, e)

parse_buffers-stopped :
    (machine : BbEndianness) (rs : ResponseStruct) (later : List ResponseStruct)
    (out : List Service)
    → 8 ≤ rs.length
    → parse_message machine rs.bytes rs.length 0 out ≡ aborted out
    → parse_buffers machine (rs ∷ later) out ≡ returned false out
unfolding parse_buffers
parse_buffers-stopped machine rs later out long e = elim (Bool-cases (is_short rs.length)) [
  | inl negative ↦ rw negative
  | inr enough ↦
      rw
        (
          enough,
          parse_messages-aborted machine rs.length rs.bytes rs.length out (omega arith)
              (omega arith) e,
        )
        refl
]

pub parse_buffers-aborted :
    (machine : BbEndianness) (rs : ResponseStruct) (later : List ResponseStruct)
    (out : List Service)
    → 8 ≤ rs.length
    → parse_header machine rs.bytes rs.length 0 ≡ refused
    → parse_buffers machine (rs ∷ later) out ≡ returned false out
parse_buffers-aborted machine rs later out long e =
    parse_buffers-stopped machine rs later out long (unfold parse_message in rw e)

-- Why reading a datagram ends the call, and how: it is short, it has another signature, a length
-- that is more than was received behind it, or a section that does not start with S; or a hostname
-- that is said to be longer than the rest of the buffer.
pub data Faulty (rs : ResponseStruct) (end : List Service → Outcome) : Type 0 where
  short : end ≡ returned false → rs.length < 8 → Faulty rs end
  unsigned :
      (sig rest : Bytes)
      → end ≡ returned false
      → 8 ≤ rs.length
      → rs.bytes ≡ sig ++ rest
      → length sig ≡ 6
      → sig ≢ signature
      → Faulty rs end
  incomplete :
      (len : ℕ) (rest : Bytes)
      → end ≡ returned false
      → 8 ≤ rs.length
      → rs.length ≤ buffer_size
      → rs.bytes ≡ signature ++ (le_bytes 2 len ++ rest)
      → len < 256 ^ 2
      → rs.length - 8 < len
      → Faulty rs end
  no_section :
      (len rnum tag : ℕ) (rest : Bytes)
      → end ≡ returned false
      → 8 ≤ rs.length
      → rs.length ≤ buffer_size
      → rs.bytes ≡ signature ++ (le_bytes 2 len ++ (2 ∷ suc rnum ∷ tag ∷ rest))
      → len ≤ rs.length - 8
      → tag ≢ b'S'
      → Faulty rs end
  overrun :
      (hostlen : ℕ) (name junk : Bytes)
      → end ≡ (λ out. crash)
      → rs ≡ record {
        bytes = long_host hostlen name ++ junk;
        length = length (long_host hostlen name);
      }
      → hostlen < 256 ^ 2
      → length name + 10 < 256 ^ 2
      → length name + length junk < hostlen
      → Faulty rs end

by_end : {end end' : List Service → Outcome} (out : List Service) → end ≡ end' → end' out ≡ end out
by_end out e = ap (λ f. f out) (sym e)

parse_buffers-first :
    (machine : BbEndianness) (rs : ResponseStruct) (end : List Service → Outcome)
    (later : List ResponseStruct) (out : List Service)
    → Faulty rs end
    → parse_buffers machine (rs ∷ later) out ≡ end out
parse_buffers-first machine rs end later out (short ends few) =
    unfold parse_buffers is_short in rw (lt→ltb rs.length 8 few) (by_end out ends)
parse_buffers-first machine rs end later out (unsigned sig rest ends long form six other) =
    parse_buffers-aborted machine rs later out long
      (unfold parse_header in rw (first, differs) refl)
    ∙ by_end out ends
  where
    first : read_bytes rs.bytes 0 6 ≡ ok sig
    first =
        subst (λ n. read_bytes rs.bytes 0 n ≡ ok sig) six
          (read_bytes_lem rs.bytes 0 sig rest (form, omega arith)).0

    differs : equal sig signature ≡ false
    differs = ground (arith, equal_iff sig signature)
parse_buffers-first machine rs end later out (incomplete len rest ends long room form fits more) =
    let (e0, a0) =
      read_bytes_lem rs.bytes 0 signature (le_bytes 2 len ++ rest) (form, omega arith) in
    let (e1, _) = read_uint_lem machine 2 len rs.bytes 6 rest (inl refl) fits a0 in
    let missing : ltb ((rs.length + 2 ^ 32 - 8) % 2 ^ 32) len ≡ true = lt→ltb _ _ (omega arith) in
    parse_buffers-aborted machine rs later out long
      (unfold parse_header in rw (e0, equal_refl signature, e1, missing))
    ∙ by_end out ends
parse_buffers-first machine rs end later out
      (no_section len rnum tag rest ends long room form fits other) =
    let (e0, a0) = read_bytes_lem rs.bytes 0 signature _ (form, omega arith) in
    let (e1, a1) = read_uint_lem machine 2 len rs.bytes 6 _ (inl refl) (omega arith) a0 in
    let (e2, a2) = read8_lem rs.bytes 8 _ _ a1 in
    let (e3, a3) = read8_lem rs.bytes 9 _ _ a2 in
    let (e4, _) = read8_lem rs.bytes 10 tag rest a3 in
    let whole : ltb ((rs.length + 2 ^ 32 - 8) % 2 ^ 32) len ≡ false = le→ltb _ _ (omega arith) in
    let differs : (tag == b'S') ≡ false = ground arith in
    parse_buffers-stopped machine rs later out long (
      unfold parse_message parse_header in
      rw (e0, equal_refl signature, e1, whole, e2, e3)
        (unfold parse_services parse_service in rw (e4, differs)))
    ∙ by_end out ends
parse_buffers-first machine rs end later out (overrun hostlen name junk ends form fits short' few) =
    ap (λ r. parse_buffers machine (r ∷ later) out) form
    ∙ parse_buffers-long_host machine hostlen name junk later out fits short' few
    ∙ by_end out ends

-- One datagram from anybody can spoil the responses. Behind buffers of response messages, a
-- datagram that is short, has another signature, a length that is more than was received behind
-- it, or a section that does not start with S makes the call return false with the services of the
-- buffers before, and those behind are not looked at; one with a hostname that is said to be longer
-- than the rest of the buffer makes it read outside the buffer.
pub parse_buffers-Faulty :
    (machine : BbEndianness) (ps : List (List (List Service) × Bytes)) (rs : ResponseStruct)
    (end : List Service → Outcome) (later : List ResponseStruct) (out : List Service)
    → All FitsDatagram ps
    → Faulty rs end
    → parse_buffers machine (map received ps ++ rs ∷ later) out ≡ end (out ++ services_in ps)
parse_buffers-Faulty machine ps rs end later out fs h =
    parse_buffers-front machine ps (rs ∷ later) out fs
    ∙ parse_buffers-first machine rs end later (out ++ services_in ps) h
