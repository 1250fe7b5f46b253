-- ===== src/Nyansd/Ipv4/RoundTrip.antt =====
-- `ipv4_stringToUint` reads back what `ipv4_uintToString` writes.
use nyan_sd.Base.{
  ℕ, zero, suc, ◌+◌, ◌-◌, ◌%◌, ◌^◌, ◌<◌, ◌≤◌, ◌≡◌, refl, ap, ◌∙◌, Bool, true, false, not, ◌&&◌,
  Option, none, some, [], ◌∷◌, ◌++◌, arith, length, drop, length-drop, length-append, take-append,
  take-long, append-nil, All, leb, le→ltb, ◌==◌, ==_iff, Bytes, IsByte,
}
use nyan_sd.ByteBauble.{BbEndianness, store}
use nyan_sd.ByteBauble.Order.{load-store, length-store, store-IsByte}
use nyan_sd.Nyansd.Wire.{At, At-append}
use nyan_sd.Nyansd.Ipv4.{
  decimal, dotted, ipv4_uint_to_string, npos, find_loop, find, substr, stoul, parse_octets,
  ipv4_string_to_uint_in, ipv4_string_to_uint, LongWidth, long_64, long_32,
}

has_no_dot : Bytes → Bool
has_no_dot [] = true
has_no_dot (b ∷ bs) = not (b == b'.') && has_no_dot bs

is_value : Option ℕ → ℕ → Bool
is_value none b = false
is_value (some v) b = v == b

-- The text of a byte has one to three characters, no dot, and stoul reads it.
reads_back : LongWidth → ℕ → Bool
unfolding has_no_dot is_value
reads_back width b =
    has_no_dot (decimal b)
    && (leb 1 (length (decimal b))
        && (leb (length (decimal b)) 3 && is_value (stoul width (decimal b)) b))

all_below : ℕ → (ℕ → Bool) → Bool
all_below zero p = true
all_below (suc n) p = p n && all_below n p

all_below-true : (n : ℕ) (p : ℕ → Bool) (x : ℕ) → all_below n p ≡ true → x < n → p x ≡ true
unfolding all_below
all_below-true zero p x h lt = absurd (omega arith)
all_below-true (suc n) p x h lt = ground (arith, all_below-true n p x)

octet_table : (width : LongWidth) → all_below 256 (reads_back width) ≡ true
unfolding all_below reads_back decimal stoul
octet_table long_64 = refl
octet_table long_32 = refl

record IsOctet (width : LongWidth) (d : Bytes) (b : ℕ) : Type 0 where
  undotted : has_no_dot d ≡ true
  some_digit : 1 ≤ length d
  few_digits : length d ≤ 3
  value : stoul width d ≡ some b

is_value→eq : (o : Option ℕ) (b : ℕ) → is_value o b ≡ true → o ≡ some b
unfolding is_value
is_value→eq none b h = cc
is_value→eq (some v) b h = ap some ((==_iff v b).0 h)

IsOctet-decimal : (width : LongWidth) (b : ℕ) → b < 256 → IsOctet width (decimal b) b
unfolding reads_back
IsOctet-decimal width b h = record {
  undotted = ground (arith, r);
  some_digit = ground (arith, r);
  few_digits = ground (arith, r);
  value = is_value→eq (stoul width (decimal b)) b (ground (arith, r));
}
  where
    r : reads_back width b ≡ true
    r = all_below-true 256 (reads_back width) b (octet_table width) h

find_loop-undotted :
    (at : ℕ) (d rest : Bytes)
    → has_no_dot d ≡ true
    → find_loop b'.' at (d ++ (b'.' ∷ rest)) ≡ at + length d
unfolding find_loop has_no_dot
find_loop-undotted at [] rest h = omega arith
find_loop-undotted at (b ∷ d) rest h = ground (arith, find_loop-undotted (at + 1) d rest)

find_loop-absent : (at : ℕ) (d : Bytes) → has_no_dot d ≡ true → find_loop b'.' at d ≡ npos
unfolding find_loop has_no_dot
find_loop-absent at [] h = refl
find_loop-absent at (b ∷ d) h = ground (arith, find_loop-absent (at + 1) d)

-- A part with a dot behind it.
inner_octet :
    (width : LongWidth) (rounds : ℕ) (s : Bytes) (pos : ℕ) (d rest op : Bytes) (b : ℕ)
    → IsOctet width d b
    → b < 256
    → length s < npos
    → At s pos (d ++ (b'.' ∷ rest))
    → (j : ℕ) × (parse_octets width (suc rounds) s pos op
        ≡ parse_octets width rounds s j (op ++ b ∷ []))
      × At s j rest
unfolding parse_octets find substr has_no_dot
inner_octet width rounds s pos [] rest op b o small fits h = absurd (omega (arith, o.some_digit))
inner_octet width rounds s pos (x ∷ d) rest op b o small fits h =
    let a₁ = At-append s pos (x ∷ []) (d ++ (b'.' ∷ rest)) h in
    let a₂ = At-append s pos (x ∷ d) (b'.' ∷ rest) h in
    let a₃ = At-append s (pos + length (x ∷ d)) (b'.' ∷ []) rest a₂ in
    let found : find_loop b'.' (pos + 1) (drop (pos + 1) s) ≡ pos + length (x ∷ d) =
      ap (find_loop b'.' (pos + 1)) a₁.0
      ∙ find_loop-undotted (pos + 1) d rest (ground (arith, o.undotted))
      ∙ omega arith in
    let count : (pos + length (x ∷ d) + 2 ^ 64 - pos) % 2 ^ 64 ≡ length (x ∷ d) =
      omega (arith, o.few_digits) in
    let next : (pos + length (x ∷ d) + 1) % 2 ^ 64 ≡ pos + length (x ∷ d) + 1 =
      omega (arith, a₂.1) in
    let low : b % 256 ≡ b = omega arith in
    (
      pos + length (x ∷ d) + 1,
      rw (
        le→ltb (length s) pos h.1,
        found,
        count,
        h.0,
        take-append (x ∷ d) (b'.' ∷ rest),
        o.value,
        next,
        low,
      ),
      a₃,
    )

-- The last part: `find` gives `npos`, and the rest of the text is taken.
last_octet :
    (width : LongWidth) (s : Bytes) (pos : ℕ) (d op : Bytes) (b : ℕ)
    → IsOctet width d b
    → b < 256
    → length s < npos
    → At s pos d
    → parse_octets width 1 s pos op ≡ some (op ++ b ∷ [])
unfolding parse_octets find substr has_no_dot
last_octet width s pos [] op b o small fits h = absurd (omega (arith, o.some_digit))
last_octet width s pos (x ∷ d) op b o small fits h =
    let h' : At s pos (x ∷ d ++ []) = rw append-nil h in
    let a₁ = At-append s pos (x ∷ []) (d ++ []) h' in
    let found : find_loop b'.' (pos + 1) (drop (pos + 1) s) ≡ npos =
      ap (find_loop b'.' (pos + 1)) (a₁.0 ∙ append-nil d)
      ∙ find_loop-absent (pos + 1) d (ground (arith, o.undotted)) in
    let enough : length (x ∷ d) ≤ (npos + 2 ^ 64 - pos) % 2 ^ 64 =
      omega (arith, o.few_digits, h.1, length-drop pos s, ap length h.0) in
    let low : b % 256 ≡ b = omega arith in
    rw (
      le→ltb (length s) pos h.1,
      found,
      h.0,
      take-long ((npos + 2 ^ 64 - pos) % 2 ^ 64) (x ∷ d) enough,
      o.value,
      low,
    )

parse_octets-dotted :
    (width : LongWidth) (bs : Bytes)
    → length bs ≡ 4
    → All IsByte bs
    → parse_octets width 4 (dotted bs) 0 [] ≡ some bs
unfolding dotted
parse_octets-dotted width (a ∷ b ∷ c ∷ d ∷ []) h (ha, (hb, (hc, (hd, _)))) =
    let oa = IsOctet-decimal width a ha in
    let ob = IsOctet-decimal width b hb in
    let oc = IsOctet-decimal width c hc in
    let od = IsOctet-decimal width d hd in
    let s = dotted (a ∷ b ∷ c ∷ d ∷ []) in
    let short : length s < npos = omega (
      arith,
      oa.few_digits,
      ob.few_digits,
      oc.few_digits,
      od.few_digits,
      length-append (decimal a) (b'.' ∷ dotted (b ∷ c ∷ d ∷ [])),
      length-append (decimal b) (b'.' ∷ dotted (c ∷ d ∷ [])),
      length-append (decimal c) (b'.' ∷ dotted (d ∷ [])),
    ) in
    let (i, e₁, p₁) = inner_octet width 3 s 0 (decimal a) _ [] a oa ha short (refl, omega arith) in
    let (j, e₂, p₂) = inner_octet width 2 s i (decimal b) _ (a ∷ []) b ob hb short p₁ in
    let (k, e₃, p₃) = inner_octet width 1 s j (decimal c) _ (a ∷ b ∷ []) c oc hc short p₂ in
    e₁ ∙ e₂ ∙ e₃ ∙ last_octet width s k (decimal d) (a ∷ b ∷ c ∷ []) d od hd short p₃
parse_octets-dotted width _ h hb = absurd (omega arith)

-- `unsigned long` may have 64 bits or 32.
pub ipv4_string_to_uint_in-ipv4_uint_to_string :
    (width : LongWidth) (machine : BbEndianness) (ipv4 : ℕ)
    → ipv4 < 256 ^ 4
    → ipv4_string_to_uint_in width machine (ipv4_uint_to_string machine ipv4) ≡ some ipv4
unfolding ipv4_string_to_uint_in ipv4_uint_to_string
ipv4_string_to_uint_in-ipv4_uint_to_string width machine ipv4 h =
    rw
      (parse_octets-dotted width (store machine 4 ipv4) (length-store machine 4 ipv4)
        (store-IsByte machine 4 ipv4))
      (ap some (load-store machine 4 ipv4 h))

-- On every machine, `ipv4_stringToUint` of the text that `ipv4_uintToString` writes for an address
-- of 32 bits is that address; no exception leaves it.
pub ipv4_string_to_uint-ipv4_uint_to_string :
    (machine : BbEndianness) (ipv4 : ℕ)
    → ipv4 < 256 ^ 4
    → ipv4_string_to_uint machine (ipv4_uint_to_string machine ipv4) ≡ some ipv4
unfolding ipv4_string_to_uint
ipv4_string_to_uint-ipv4_uint_to_string = ipv4_string_to_uint_in-ipv4_uint_to_string long_64
