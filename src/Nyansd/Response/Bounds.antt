-- ===== src/Nyansd/Response/Bounds.antt =====
-- What the response parser does on any buffer: it ends, keeps what it had, and adds only services
-- within the bounds of their fields.
use nyan_sd.Base.{
  ℕ, zero, suc, ◌+◌, ◌^◌, ◌<◌, ◌≤◌, ◌≡◌, refl, Bool, true, false, Bool-cases, inl, inr, [], ◌∷◌,
  arith, length, take, drop, length-take, length-drop, All, leb, ◌==◌, Bytes, IsByte,
}
use native.Mathlib.Nat.{pow-suc}
use nyan_sd.ByteBauble.{BbEndianness, of_le}
use nyan_sd.ByteBauble.Order.{IsWidth, to_host-load}
use nyan_sd.Nyansd.{Service, FitsSection}
use nyan_sd.Nyansd.Wire.{
  Scan, ok, refused, fault, ◌>>=◌, ◌>>◌, require, read8, read_bytes, read_uint,
}
use nyan_sd.Nyansd.Response.{parse_service}

-- A value that is read has the property.
abbrev pub Ensures {ℓ κ} : {A : Type ℓ} → (A → Type κ) → Scan A → Type κ
Ensures P (ok a) = P a
Ensures P refused = Unit
Ensures P fault = Unit

pub Ensures-bind {ℓ κ μ ν} :
    {A : Type ℓ} {B : Type κ} {Q : A → Type μ} (P : B → Type ν) (m : Scan A) (f : A → Scan B)
    → Ensures Q m
    → ((a : A) → Q a → Ensures P (f a))
    → Ensures P (m >>= f)
Ensures-bind P (ok a) f q h = h a q
Ensures-bind P refused f q h = tt
Ensures-bind P fault f q h = tt

pub Ensures-require {κ} :
    {B : Type 0} (P : B → Type κ) (b : Bool) (m : Scan B) → Ensures P m → Ensures P (require b >> m)
Ensures-require P true m h = h
Ensures-require P false m h = tt

All-drop : (n : ℕ) (bs : Bytes) → All IsByte bs → All IsByte (drop n bs)
All-drop zero bs h = h
All-drop (suc n) [] h = h
All-drop (suc n) (b ∷ bs) h = All-drop n bs h.1

All-take : (n : ℕ) (bs : Bytes) → All IsByte bs → All IsByte (take n bs)
All-take zero bs h = tt
All-take (suc n) [] h = tt
All-take (suc n) (b ∷ bs) h = (h.0, All-take n bs h.1)

of_le-lt : (bs : Bytes) → All IsByte bs → of_le bs < 256 ^ length bs
unfolding of_le
of_le-lt [] h = omega arith
of_le-lt (b ∷ bs) (hb, hbs) = omega (arith, of_le-lt bs hbs, pow-suc 256 (length bs))

module _ (buffer : Bytes) (bytes : All IsByte buffer) where
  pub read8-lt : (index : ℕ) → Ensures (λ b. b < 256) (read8 buffer index)
  unfolding read8
  read8-lt index = go (drop index buffer) (All-drop index buffer bytes)
    where
      go :
          (bs : Bytes)
          → All IsByte bs
          → Ensures (λ b. b < 256) (elim bs [ [] ↦ fault | b ∷ _ ↦ ok b ])
      go [] h = tt
      go (b ∷ bs) h = h.0

  pub length-read_bytes :
      (index len : ℕ) → Ensures (λ s. (length s ≡ len) × All IsByte s) (read_bytes buffer index len)
  unfolding read_bytes
  length-read_bytes index len = elim (Bool-cases (leb (index + len) (length buffer))) [
    | inl fits ↦ rw fits (
      omega (arith, leb→le fits, length-take len (drop index buffer), length-drop index buffer),
      All-take len (drop index buffer) (All-drop index buffer bytes),
    )
    | inr over ↦ rw over tt
  ]
    where
      leb→le : leb (index + len) (length buffer) ≡ true → index + len ≤ length buffer
      leb→le h = ground arith

  pub read_uint-lt :
      (machine : BbEndianness) (k index : ℕ)
      → IsWidth k
      → Ensures (λ x. x < 256 ^ k) (read_uint machine k buffer index)
  unfolding read_uint
  read_uint-lt machine k index w =
      Ensures-bind (λ x. x < 256 ^ k) (read_bytes buffer index k) _ (length-read_bytes index k)
        (λ s h. rw (to_host-load machine k s w h.0 h.1, ← h.0) (of_le-lt s h.1))

-- A service that was read fits its fields, and the index has moved on.
abbrev Moved : ℕ → Service × ℕ → Type 0
Moved index (sv, j) = FitsSection sv × (index < j)

module _ (machine : BbEndianness) (buffer : Bytes) (bytes : All IsByte buffer) where
  pub parse_service-FitsSection :
      (index : ℕ) → Ensures (Moved index) (parse_service machine buffer index)
  unfolding parse_service
  parse_service-FitsSection i =
      let P = Moved i in
      let w2 : IsWidth 2 = inl refl in
      let w4 : IsWidth 4 = inr (inl refl) in
      let byte = read8-lt buffer bytes in
      let text = length-read_bytes buffer bytes in
      let word = read_uint-lt buffer bytes machine in
      Ensures-bind P (read8 buffer i) _ (byte i) λ tag _. Ensures-require P (tag == b'S') _ (
        Ensures-bind P (read_uint machine 4 buffer (i + 1)) _ (word 4 (i + 1) w4) λ ipv4 h4.
          Ensures-bind P (read8 buffer (i + 1 + 4)) _ (byte (i + 1 + 4)) λ n6 h6.
            Ensures-bind P (read_bytes buffer (i + 1 + 4 + 1) n6) _ (text (i + 1 + 4 + 1) n6)
              λ ipv6 l6.
                let i₄ = i + 1 + 4 + 1 + n6 in
                Ensures-bind P (read_uint machine 2 buffer i₄) _ (word 2 i₄ w2) λ nh hh.
                  Ensures-bind P (read_bytes buffer (i₄ + 2) nh) _ (text (i₄ + 2) nh) λ host lh.
                    let i₆ = i₄ + 2 + nh in
                    Ensures-bind P (read_uint machine 2 buffer i₆) _ (word 2 i₆ w2) λ port hp.
                      Ensures-bind P (read8 buffer (i₆ + 2)) _ (byte (i₆ + 2)) λ prot _.
                        let i₈ = i₆ + 2 + 1 in
                        Ensures-bind P (read_uint machine 2 buffer i₈) _ (word 2 i₈ w2) λ ns hs.
                          Ensures-bind P (read_bytes buffer (i₈ + 2) ns) _ (text (i₈ + 2) ns)
                            λ name ls. (
                              record {
                                ipv4_fits = h4;
                                ipv6_fits = omega (arith, l6.0);
                                port_fits = hp;
                                hostname_fits = omega (arith, lh.0);
                                service_fits = omega (arith, ls.0);
                              },
                              omega arith,
                            ))
