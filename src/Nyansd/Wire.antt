-- ===== src/Nyansd/Wire.antt =====
-- Reading and writing the buffers of src/nyansd.cpp: `*((uint16_t*) &buffer[index])` with its
-- `toHost`, `std::string(buffer + index, buffer + (index + len))`, and the bytes of an integer
-- after `toGlobal`. A read that leaves the buffer is a fault, since C++ gives it no meaning.
use nyan_sd.Base.{
  ℕ, ◌+◌, ◌^◌, ◌≤◌, ◌<◌, ◌≡◌, ap, ◌∙◌, subst, Bool, true, false, [], ◌∷◌, ◌++◌, arith, leb, le→leb,
  if◌then◌else◌, length, take, drop, length-append, length-drop, take-append, drop-append, drop-add,
  Bytes,
}
use nyan_sd.ByteBauble.{BbEndianness, bb_le, store, load, le_bytes, byte_bauble, to_global, to_host}
use nyan_sd.ByteBauble.Order.{
  IsWidth, store-to_global, to_host-load, length-le_bytes, le_bytes-IsByte, of_le-le_bytes,
}

-- `refused` is an early `return false`.
pub data Scan {ℓ} (A : Type ℓ) : Type ℓ where
  ok : A → Scan A
  refused : Scan A
  fault : Scan A

infixl 5 ◌>>=◌ ◌>>◌
abbrev pub ◌>>=◌ {ℓ κ} : {A : Type ℓ} {B : Type κ} → Scan A → (A → Scan B) → Scan B
ok a >>= f = f a
refused >>= f = refused
fault >>= f = fault

abbrev pub ◌>>◌ {ℓ} : {B : Type ℓ} → Scan (Unit {0}) → Scan B → Scan B
m >> k = m >>= λ _. k

abbrev pub require : Bool → Scan (Unit {0})
require true = ok tt
require false = refused

unfoldable pub read_bytes : Bytes → ℕ → ℕ → Scan Bytes
read_bytes buffer index len =
    if leb (index + len) (length buffer) then ok (take len (drop index buffer)) else fault

first : Bytes → Scan ℕ
first [] = fault
first (b ∷ _) = ok b

unfoldable pub read8 : Bytes → ℕ → Scan ℕ
unfolding first
read8 buffer index = first (drop index buffer)

unfoldable pub read_uint : BbEndianness → ℕ → Bytes → ℕ → Scan ℕ
unfolding read_bytes
read_uint machine k buffer index = do
  raw ← read_bytes buffer index k
  ok (to_host (byte_bauble machine) k (load machine raw) bb_le)

unfoldable pub write_uint : BbEndianness → ℕ → ℕ → Bytes
write_uint machine k x =
    let bb = byte_bauble machine in store machine k (to_global bb k x bb.host_endian)

-- On every machine an integer goes out with its lowest byte first.
pub write_uint-le_bytes :
    (machine : BbEndianness) (k x : ℕ) → IsWidth k → write_uint machine k x ≡ le_bytes k x
unfolding write_uint
write_uint-le_bytes machine k x w = store-to_global machine k x w

-- `rest` is what the buffer holds from `index` on. Each lemma reads one item off its front.
abbrev pub At : Bytes → ℕ → Bytes → Type 0
At buffer index rest = (drop index buffer ≡ rest) × (index ≤ length buffer)

pub At-append :
    (buffer : Bytes) (index : ℕ) (s rest : Bytes)
    → At buffer index (s ++ rest)
    → At buffer (index + length s) rest
At-append buffer index s rest (h, p) = (
  drop-add index (length s) buffer ∙ ap (drop (length s)) h ∙ drop-append s rest,
  omega (arith, length-drop index buffer, ap length h, length-append s rest),
)

pub read8_lem :
    (buffer : Bytes) (index b : ℕ) (rest : Bytes)
    → At buffer index (b ∷ rest)
    → (read8 buffer index ≡ ok b) × At buffer (index + 1) rest
unfolding read8
read8_lem buffer index b rest h = (rw (h.0), At-append buffer index (b ∷ []) rest h)

pub read_bytes_lem :
    (buffer : Bytes) (index : ℕ) (s rest : Bytes)
    → At buffer index (s ++ rest)
    → (read_bytes buffer index (length s) ≡ ok s) × At buffer (index + length s) rest
unfolding read_bytes
read_bytes_lem buffer index s rest h =
    let after : At buffer (index + length s) rest = At-append buffer index s rest h in
    (rw (le→leb _ _ after.1, h.0, take-append s rest), after)

pub read_uint_lem :
    (machine : BbEndianness) (k x : ℕ) (buffer : Bytes) (index : ℕ) (rest : Bytes)
    → IsWidth k
    → x < 256 ^ k
    → At buffer index (le_bytes k x ++ rest)
    → (read_uint machine k buffer index ≡ ok x) × At buffer (index + k) rest
unfolding read_uint
read_uint_lem machine k x buffer index rest w fits h = (rw whole.0 (ap ok value), whole.1)
  where
    long : length (le_bytes k x) ≡ k
    long = length-le_bytes k x

    value : to_host (byte_bauble machine) k (load machine (le_bytes k x)) bb_le ≡ x
    value = to_host-load machine k _ w long (le_bytes-IsByte k x) ∙ of_le-le_bytes k x fits

    whole : (read_bytes buffer index k ≡ ok (le_bytes k x)) × At buffer (index + k) rest
    whole =
        subst (λ n. (read_bytes buffer index n ≡ ok (le_bytes k x)) × At buffer (index + n) rest)
          long (read_bytes_lem buffer index (le_bytes k x) rest h)
