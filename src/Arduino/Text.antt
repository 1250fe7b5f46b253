-- ===== src/Arduino/Text.antt =====
-- The text of an IPv4 address that the microcontroller makes, read by the library.
use nyan_sd.Base.{ℕ, ◌/◌, ◌%◌, ◌^◌, ◌<◌, ◌≡◌, ap, ◌∙◌, some, [], ◌∷◌, arith, Bytes}
use nyan_sd.ByteBauble.{bb_le, le_bytes, store}
use nyan_sd.Nyansd.Ipv4 as Library
use nyan_sd.Nyansd.Ipv4.{dotted, ipv4_string_to_uint}
use nyan_sd.Nyansd.Ipv4.RoundTrip.{ipv4_string_to_uint-ipv4_uint_to_string}
use nyan_sd.Arduino.{ipv4_uint_to_string}

ipv4_uint_to_string-full :
    (to_text : ℕ → ℕ → ℕ → ℕ → Bytes) (ipv4 : ℕ)
    → ((a b c d : ℕ) → to_text a b c d ≡ dotted (a ∷ b ∷ c ∷ d ∷ []))
    → ipv4_uint_to_string to_text ipv4 ≡ Library.ipv4_uint_to_string bb_le ipv4
unfolding ipv4_uint_to_string Library.ipv4_uint_to_string store le_bytes
ipv4_uint_to_string-full to_text ipv4 h =
    h _ _ _ _
    ∙ ap (λ c. dotted (ipv4 % 256 ∷ ipv4 / 256 % 256 ∷ c ∷ ipv4 / 256 ^ 3 % 256 ∷ [])) third
    ∙ ap (λ d. dotted (ipv4 % 256 ∷ ipv4 / 256 % 256 ∷ ipv4 / 256 / 256 % 256 ∷ d ∷ [])) fourth
  where
    third : ipv4 / 256 ^ 2 % 256 ≡ ipv4 / 256 / 256 % 256
    third = omega arith

    fourth : ipv4 / 256 ^ 3 % 256 ≡ ipv4 / 256 / 256 / 256 % 256
    fourth = omega arith

-- When the framework writes an address in dotted decimal form, the library, on a little endian
-- machine, reads the microcontroller's text of an IPv4 address as that address.
pub ipv4_string_to_uint_arduino :
    (to_text : ℕ → ℕ → ℕ → ℕ → Bytes) (ipv4 : ℕ)
    → ((a b c d : ℕ) → to_text a b c d ≡ dotted (a ∷ b ∷ c ∷ d ∷ []))
    → ipv4 < 256 ^ 4
    → ipv4_string_to_uint bb_le (ipv4_uint_to_string to_text ipv4) ≡ some ipv4
ipv4_string_to_uint_arduino to_text ipv4 h fits =
    ap (ipv4_string_to_uint bb_le) (ipv4_uint_to_string-full to_text ipv4 h)
    ∙ ipv4_string_to_uint-ipv4_uint_to_string bb_le ipv4 fits
