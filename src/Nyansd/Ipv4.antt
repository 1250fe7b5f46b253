-- ===== src/Nyansd/Ipv4.antt =====
-- src/nyansd.cpp: `ipv4_uintToString` and `ipv4_stringToUint`, with what they use of the standard
-- library: std::to_string, std::stoul, find and substr. `none` is an exception that leaves.
pub mod RoundTrip
use nyan_sd.Base.{
  ℕ, zero, suc, ◌+◌, ◌-◌, ◌*◌, ◌/◌, ◌%◌, ◌^◌, Bool, true, false, ◌&&◌, ◌||◌, Option, none, some,
  List, [], ◌∷◌, ◌++◌, ltb, leb, ◌==◌, if◌then◌else◌, length, take, drop, Bytes,
}
use nyan_sd.ByteBauble.{BbEndianness, store, load}

infixl 5 ◌>>=◌
abbrev ◌>>=◌ {ℓ κ} : {A : Type ℓ} {B : Type κ} → Option A → (A → Option B) → Option B
none >>= f = none
some a >>= f = f a

-- std::to_string of an unsigned number; it has no more digits than the fuel, the number itself.
decimal_loop : ℕ → ℕ → Bytes
decimal_loop zero n = (b'0' + n % 10) ∷ []
decimal_loop (suc fuel) n =
    let rest = decimal_loop fuel (n / 10) in
    if ltb n 10 then (b'0' + n) ∷ [] else rest ++ (b'0' + n % 10) ∷ []

unfoldable pub decimal : ℕ → Bytes
unfolding decimal_loop
decimal n = decimal_loop n n

-- `out += std::to_string(byte); if (i < 3) { out += "."; }`
unfoldable pub dotted : Bytes → Bytes
dotted [] = []
dotted (b ∷ []) = decimal b
dotted (b ∷ c ∷ bs) = decimal b ++ (b'.' ∷ dotted (c ∷ bs))

-- The four bytes as they lie in memory.
unfoldable pub ipv4_uint_to_string : BbEndianness → ℕ → Bytes
ipv4_uint_to_string machine ipv4 = dotted (store machine 4 ipv4)

abbrev pub npos : ℕ
npos = 2 ^ 64 - 1

-- The first place of a byte in a text whose first byte has the number `at`.
unfoldable pub find_loop : ℕ → ℕ → Bytes → ℕ
find_loop c at [] = npos
find_loop c at (b ∷ bs) = let rest = find_loop c (at + 1) bs in if b == c then at else rest

unfoldable pub find : Bytes → ℕ → ℕ → ℕ
find s c pos = find_loop c pos (drop pos s)

-- `substr` throws if it starts behind the end.
unfoldable pub substr : Bytes → ℕ → ℕ → Option Bytes
substr s pos count = if ltb (length s) pos then none else some (take count (drop pos s))

is_digit : ℕ → Bool
is_digit c = leb b'0' c && leb c b'9'

is_space : ℕ → Bool
is_space c = c == b' ' || (leb 9 c && leb c 13)

skip_space : Bytes → Bytes
skip_space [] = []
skip_space (c ∷ cs) = let rest = skip_space cs in if is_space c then rest else c ∷ cs

digits_value : ℕ → Bytes → ℕ
digits_value acc [] = acc
digits_value acc (c ∷ cs) =
    let rest = digits_value (acc * 10 + (c - b'0')) cs in if is_digit c then rest else acc

-- `unsigned long` has 64 bits, but 32 on Windows.
pub data LongWidth : Type 0 where
  long_64 long_32 : LongWidth

-- One more than ULONG_MAX.
abbrev pub long_range : LongWidth → ℕ
long_range long_64 = 2 ^ 64
long_range long_32 = 2 ^ 32

-- The digits: `std::invalid_argument` if there is none, `std::out_of_range` if they are too many.
unsigned_value : LongWidth → Bytes → Option ℕ
unsigned_value width [] = none
unsigned_value width (c ∷ cs) =
    if is_digit c
    then (if leb (long_range width) (digits_value 0 (c ∷ cs))
        then none
        else some (digits_value 0 (c ∷ cs)))
    else none

-- A minus sign negates within unsigned long.
signed_value : LongWidth → Bytes → Option ℕ
signed_value width [] = none
signed_value width (c ∷ cs) =
    if c == b'+'
    then unsigned_value width cs
    else if c == b'-'
    then (do v ← unsigned_value width cs; some ((long_range width - v) % long_range width))
    else unsigned_value width (c ∷ cs)

unfoldable pub stoul : LongWidth → Bytes → Option ℕ
unfolding is_digit is_space skip_space digits_value unsigned_value signed_value
stoul width s = signed_value width (skip_space s)

-- The loop of four rounds. `op` holds the bytes written so far; std::size_t wraps at 2 ^ 64.
unfoldable pub parse_octets : LongWidth → ℕ → Bytes → ℕ → Bytes → Option Bytes
parse_octets width zero ipv4 pos op = some op
parse_octets width (suc rounds) ipv4 pos op = do
  let pos_end = find ipv4 b'.' (pos + 1)
  part ← substr ipv4 pos ((pos_end + 2 ^ 64 - pos) % 2 ^ 64)
  octet ← stoul width part
  parse_octets width rounds ipv4 ((pos_end + 1) % 2 ^ 64) (op ++ octet % 256 ∷ [])

unfoldable pub ipv4_string_to_uint_in : LongWidth → BbEndianness → Bytes → Option ℕ
ipv4_string_to_uint_in width machine ipv4 = do
  op ← parse_octets width 4 ipv4 0 []
  some (load machine op)

-- Where `unsigned long` has 64 bits.
unfoldable pub ipv4_string_to_uint : BbEndianness → Bytes → Option ℕ
ipv4_string_to_uint = ipv4_string_to_uint_in long_64
