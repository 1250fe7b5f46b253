-- ===== src/Nyansd/Response/Total.antt =====
-- The loops of the response parser end on any buffers, keep what `responses` had, and add only
-- services whose fields are in bounds.
use nyan_sd.Base.{
  ℕ, zero, suc, ◌+◌, ◌-◌, ◌%◌, ◌^◌, ◌<◌, ◌≤◌, ◌≡◌, refl, sym, ap, ◌∙◌, not, Bool-cases, inl, inr,
  List, [], ◌∷◌, ◌++◌, arith, All, All-append, append-nil, append_assoc, ltb, le→ltb, ◌==◌, equal,
  Bytes, IsByte,
}
use nyan_sd.ByteBauble.{BbEndianness}
use nyan_sd.Nyansd.{Service, FitsSection, signature, message_code, response}
use nyan_sd.Nyansd.Wire.{Scan, ok, refused, fault, read8, read_bytes, read_uint}
use nyan_sd.Nyansd.Response.{
  is_short, parse_service, Walk, on, aborted, crashed, no_fuel, parse_services, Header, skip,
  sections, parse_header, parse_message, parse_messages, ResponseStruct, Outcome, returned, crash,
  thrown, out_of_fuel, parse_buffers, after_service, after_header, after_message, after_buffer,
}
use nyan_sd.Nyansd.Response.Bounds.{
  Ensures, Ensures-bind, Ensures-require, read8-lt, length-read_bytes, read_uint-lt,
  parse_service-FitsSection,
}

-- `o` is `out` with services appended, all in bounds.
pub record Grown (out o : List Service) : Type 0 where
  pub added : List Service
  pub keeps : o ≡ out ++ added
  pub in_bounds : All FitsSection added

Grown-refl : (out : List Service) → Grown out out
Grown-refl out = record { added = []; keeps = sym (append-nil out); in_bounds = tt }

Grown-trans : {a b c : List Service} → Grown a b → Grown b c → Grown a c
Grown-trans {a} f g = record {
  added = f.added ++ g.added;
  keeps = g.keeps ∙ ap (λ x. x ++ g.added) f.keeps ∙ append_assoc a f.added g.added;
  in_bounds = All-append FitsSection f.added g.added f.in_bounds g.in_bounds;
}

Grown-one : (out : List Service) (sv : Service) → FitsSection sv → Grown out (out ++ sv ∷ [])
Grown-one out sv f = record { added = sv ∷ []; keeps = refl; in_bounds = (f, tt) }

-- A part of the parser leaves the index at `least` or behind it, or it returns.
abbrev Goes : ℕ → List Service → Walk → Type 0
Goes least out (on j o) = (least ≤ j) × Grown out o
Goes least out (aborted o) = Grown out o
Goes least out crashed = Unit
Goes least out no_fuel = ⊥

Goes-trans :
    {least i : ℕ} {out o : List Service} (w : Walk)
    → least ≤ i
    → Grown out o
    → Goes i o w
    → Goes least out w
Goes-trans (on j o) p g (q, h) = (omega arith, Grown-trans g h)
Goes-trans (aborted o) p g h = Grown-trans g h
Goes-trans crashed p g h = tt
Goes-trans no_fuel p g h = h

module _ (machine : BbEndianness) (buffer : Bytes) (bytes : All IsByte buffer) where
  parse_services-Goes :
      (rounds index : ℕ) (out : List Service)
      → Goes index out (parse_services machine buffer rounds index out)
  unfolding parse_services
  parse_services-Goes zero index out = (omega arith, Grown-refl out)
  parse_services-Goes (suc rounds) index out =
      step (parse_service machine buffer index)
        (parse_service-FitsSection machine buffer bytes index)
        (λ i o. parse_services-Goes rounds i o)
    where
      step :
          (m : Scan (Service × ℕ))
          → Ensures (λ p. FitsSection p.0 × (index < p.1)) m
          → ((i : ℕ) (o : List Service) → Goes i o (parse_services machine buffer rounds i o))
          → Goes index out (after_service m out (λ i o. parse_services machine buffer rounds i o))
      step (ok (sv, i)) (f, p) later =
          Goes-trans (parse_services machine buffer rounds i (out ++ sv ∷ [])) (omega arith)
            (Grown-one out sv f) (later i (out ++ sv ∷ []))
      step refused h later = Grown-refl out
      step fault h later = tt

  abbrev Behind : ℕ → Header → Type 0
  Behind index (skip i) = index < i
  Behind index (sections rnum i) = index < i

  parse_header-Behind : (n index : ℕ) → Ensures (Behind index) (parse_header machine buffer n index)
  unfolding parse_header
  parse_header-Behind n i =
      let P = Behind i in
      let byte = read8-lt buffer bytes in
      Ensures-bind P (read_bytes buffer 0 6) _ (length-read_bytes buffer bytes 0 6) λ sig _.
        Ensures-require P (equal sig signature) _ (
          Ensures-bind P (read_uint machine 2 buffer (i + 6)) _
            (read_uint-lt buffer bytes machine 2 (i + 6) (inl refl))
            λ len _. Ensures-require P (not (ltb ((n + 2 ^ 32 - (i + 6 + 2)) % 2 ^ 32) len)) _ (
              Ensures-bind P (read8 buffer (i + 6 + 2)) _ (byte (i + 6 + 2)) λ type _.
                elim (Bool-cases (not (type == message_code response))) [
                  | inl other ↦ rw other (omega arith)
                  | inr ours ↦ rw ours (
                      Ensures-bind P (read8 buffer (i + 6 + 2 + 1)) _ (byte (i + 6 + 2 + 1))
                        (λ rnum _. omega arith))
                ]))

  parse_message-Goes :
      (n index : ℕ) (out : List Service)
      → Goes (index + 1) out (parse_message machine buffer n index out)
  unfolding parse_message
  parse_message-Goes n index out =
      step (parse_header machine buffer n index) (parse_header-Behind n index)
    where
      step :
          (m : Scan Header)
          → Ensures (Behind index) m
          → Goes (index + 1) out (after_header machine buffer out m)
      step (ok (skip i)) p = (omega arith, Grown-refl out)
      step (ok (sections rnum i)) p =
          Goes-trans (parse_services machine buffer rnum i out) (omega arith) (Grown-refl out)
            (parse_services-Goes rnum i out)
      step refused p = Grown-refl out
      step fault p = tt

  parse_messages-Goes :
      (fuel n index : ℕ) (out : List Service)
      → n ≤ index + fuel
      → Goes index out (parse_messages fuel machine buffer n index out)
  unfolding parse_messages
  parse_messages-Goes zero n index out h =
      rw (le→ltb index n (omega arith)) (omega arith, Grown-refl out)
  parse_messages-Goes (suc fuel) n index out h = elim (Bool-cases (ltb index n)) [
    | inl more ↦
        rw (more, parse_messages)
          (step (parse_message machine buffer n index out) (parse_message-Goes n index out)
            (λ i o p. parse_messages-Goes fuel n i o (omega arith)))
    | inr end ↦ rw (end, parse_messages) (omega arith, Grown-refl out)
  ]
    where
      step :
          (w : Walk)
          → Goes (index + 1) out w
          → ((i : ℕ) (o : List Service)
              → index + 1 ≤ i
              → Goes i o (parse_messages fuel machine buffer n i o))
          → Goes index out (after_message w (λ i o. parse_messages fuel machine buffer n i o))
      step (on i o) (p, g) later =
          Goes-trans (parse_messages fuel machine buffer n i o) (omega arith) g (later i o p)
      step (aborted o) g later = g
      step crashed g later = tt
      step no_fuel g later = g

-- How a call of `sendQuery` ends that was given `out`.
abbrev pub Ends : List Service → Outcome → Type 0
Ends out (returned result o) = Grown out o
Ends out thrown = ⊥
Ends out crash = Unit
Ends out out_of_fuel = ⊥

abbrev pub IsBuffer : ResponseStruct → Type 0
IsBuffer rs = All IsByte rs.bytes

-- On every machine and for any bytes in the buffers, the loops over the responses end: they
-- never use up their fuel. If the call returns, true or false, then `responses` holds what it
-- held before, and behind it only services whose fields are within the bounds of their types.
pub parse_buffers-Ends :
    (machine : BbEndianness) (buffers : List ResponseStruct) (out : List Service)
    → All IsBuffer buffers
    → Ends out (parse_buffers machine buffers out)
unfolding parse_buffers
parse_buffers-Ends machine [] out h = Grown-refl out
parse_buffers-Ends machine (rs ∷ rest) out (h, hs) = elim (Bool-cases (is_short rs.length)) [
  | inl short ↦ rw short (Grown-refl out)
  | inr long ↦ rw long (
      step (parse_messages rs.length machine rs.bytes rs.length 0 out)
        (parse_messages-Goes machine rs.bytes h rs.length rs.length 0 out (omega arith))
        (λ o. parse_buffers-Ends machine rest o hs))
]
  where
    step :
        (w : Walk)
        → Goes 0 out w
        → ((o : List Service) → Ends o (parse_buffers machine rest o))
        → Ends out (after_buffer w (λ o. parse_buffers machine rest o))
    step (on i o) (p, g) later = longer g (parse_buffers machine rest o) (later o)
      where
        longer : Grown out o → (r : Outcome) → Ends o r → Ends out r
        longer g (returned b o') g' = Grown-trans g g'
        longer g thrown g' = g'
        longer g crash g' = tt
        longer g out_of_fuel g' = g'
    step (aborted o) g later = g
    step crashed g later = tt
    step no_fuel g later = g
