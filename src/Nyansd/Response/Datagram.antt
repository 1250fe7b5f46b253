-- ===== src/Nyansd/Response/Datagram.antt =====
-- Reading datagrams, each of one or more response messages, out of the receive buffers.
use nyan_sd.Base.{
  ℕ, zero, suc, ◌+◌, ◌^◌, ◌<◌, ◌≤◌, ◌≡◌, refl, ap, ◌∙◌, true, List, [], ◌∷◌, ◌++◌, arith, length,
  All, length-append, append_assoc, append-nil, le→ltb, lt→ltb, length-drop, map, Bytes,
}
use nyan_sd.ByteBauble.{BbEndianness}
use nyan_sd.Nyansd.{Service, signature}
use nyan_sd.Nyansd.Wire.{At, read_bytes_lem}
use nyan_sd.Nyansd.Response.{
  is_short-received, on, parse_messages, ResponseStruct, buffer_size, returned, parse_buffers,
}
use nyan_sd.Nyansd.Response.Message.{
  message, FitsMessage, length-message, Signed, parse_message-message,
}

unfoldable pub concat {ℓ} : {A : Type ℓ} → List (List A) → List A
concat [] = []
concat (xs ∷ xss) = xs ++ concat xss

-- Messages one behind the other.
unfoldable pub datagram : List (List Service) → Bytes
datagram [] = []
datagram (svs ∷ svss) = message svs ++ datagram svss

pub moved :
    (buffer : Bytes) (i j : ℕ) (s rest : Bytes)
    → At buffer i (s ++ rest)
    → At buffer j rest
    → i + length s ≡ j
moved buffer i j s rest (h, p) (h', p') = omega (
  arith,
  length-drop i buffer,
  length-drop j buffer,
  ap length h,
  ap length h',
  length-append s rest,
)

pub parse_messages-datagram :
    (fuel : ℕ) (machine : BbEndianness) (svss : List (List Service)) (buffer : Bytes) (n index : ℕ)
    (out : List Service) (rest : Bytes)
    → All FitsMessage svss
    → Signed buffer
    → At buffer index (datagram svss ++ rest)
    → index + length (datagram svss) ≡ n
    → n < 2 ^ 32
    → n ≤ index + fuel
    → parse_messages fuel machine buffer n index out ≡ on n (out ++ concat svss)
unfolding parse_messages datagram concat
parse_messages-datagram zero machine [] buffer n i out rest f s h e small enough =
    rw (le→ltb i n (omega arith), append-nil) (ap (λ k. on k out) (omega arith))
parse_messages-datagram (suc fuel) machine [] buffer n i out rest f s h e small enough =
    rw (le→ltb i n (omega arith), parse_messages, append-nil) (ap (λ k. on k out) (omega arith))
parse_messages-datagram zero machine (svs ∷ svss) buffer n i out rest f s h e small enough =
    absurd (omega (arith, length-append (message svs) (datagram svss), length-message svs))
parse_messages-datagram (suc fuel) machine (svs ∷ svss) buffer n i out rest (f, fs) s h e small
      enough =
    let long = length-append (message svs) (datagram svss) in
    let h' : At buffer i (message svs ++ (datagram svss ++ rest)) =
      rw (append_assoc (message svs) (datagram svss) rest) at h in
    let (j, e', a) =
      parse_message-message machine svs buffer n i out (datagram svss ++ rest) f s h'
        (omega (arith, long)) small in
    let m = moved buffer i j (message svs) (datagram svss ++ rest) h' a in
    rw (lt→ltb i n (omega (arith, long, length-message svs)), parse_messages, e')
      (parse_messages-datagram fuel machine svss buffer n j (out ++ svs) rest fs s a
          (omega (arith, long)) small (omega (arith, length-message svs))
        ∙ ap (on n) (append_assoc out svs (concat svss)))

-- A buffer into which a datagram was received: what was there before stands behind it.
abbrev pub received : List (List Service) × Bytes → ResponseStruct
received (svss, junk) = record { bytes = datagram svss ++ junk; length = length (datagram svss) }

-- One message at least, which all fit, in no more than a buffer holds.
pub record FitsDatagram (p : List (List Service) × Bytes) : Type 0 where
  pub some_message : 0 < length p.0
  pub each_fits : All FitsMessage p.0
  pub length_fits : length (datagram p.0) ≤ buffer_size

-- The services in some datagrams, in order.
unfoldable pub services_in : List (List (List Service) × Bytes) → List Service
services_in [] = []
services_in (p ∷ ps) = concat p.0 ++ services_in ps

pub Signed-datagram :
    (svss : List (List Service)) (junk : Bytes) → 0 < length svss → Signed (datagram svss ++ junk)
unfolding datagram message
Signed-datagram [] junk h = elim h [ ]
Signed-datagram (svs ∷ svss) junk h = (read_bytes_lem _ 0 signature _ (refl, omega arith)).0

pub length-datagram : (svss : List (List Service)) → 0 < length svss → 8 ≤ length (datagram svss)
unfolding datagram
length-datagram [] h = elim h [ ]
length-datagram (svs ∷ svss) h =
    omega (arith, length-append (message svs) (datagram svss), length-message svs)

-- On every machine `sendQuery` returns true with the services of all messages in all buffers
-- appended to `responses` in order, when each datagram holds one or more messages that fit.
-- What a buffer holds behind its datagram has no effect.
pub parse_buffers-received :
    (machine : BbEndianness) (ps : List (List (List Service) × Bytes)) (out : List Service)
    → All FitsDatagram ps
    → parse_buffers machine (map received ps) out ≡ returned true (out ++ services_in ps)
unfolding parse_buffers services_in
parse_buffers-received machine [] out fs = rw append-nil
parse_buffers-received machine ((svss, junk) ∷ ps) out (f, fs) =
    rw
      (
        is_short-received _ (length-datagram svss f.some_message) (omega (arith, f.length_fits)),
        parse_messages-datagram (length (datagram svss)) machine svss (datagram svss ++ junk)
            (length (datagram svss)) 0 out junk f.each_fits
            (Signed-datagram svss junk f.some_message) (refl, omega arith) (omega arith)
            (omega (arith, f.length_fits)) (omega arith),
        parse_buffers-received machine ps (out ++ concat svss) fs,
      )
      (ap (returned true) (append_assoc out (concat svss) (services_in ps)))
