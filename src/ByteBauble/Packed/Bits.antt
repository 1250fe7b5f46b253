-- ===== src/ByteBauble/Packed/Bits.antt =====
-- The bits that the inner loop of the packed integers copies.
use nyan_sd.Base.{
  ℕ, zero, suc, ◌+◌, ◌-◌, ◌*◌, ◌/◌, ◌%◌, ◌^◌, ◌<◌, ◌≤◌, ◌≡◌, sym, ap, ◌∙◌, inl, inr, arith, ==_iff,
  if◌then◌else◌, Bool-cases,
}
use native.Mathlib.Nat.{
  mod-lt, mod-one, mod-eq_of_lt, div-add-mod, div-eq_of_lt, div-div-eq-div-mul,
  mul-add-mod_self_left, one-le-pow, pow-suc, pow-succ',
}
use nyan_sd.ByteBauble.Packed.{bit, set_bit, copy_bits}

double_mod : (w q : ℕ) → 0 < q → w % (2 * q) ≡ w % 2 + 2 * (w / 2 % q)
double_mod w q pos =
    let r = w / 2 % q in
    let small : r < q = mod-lt (w / 2) pos in
    let whole : w ≡ 2 * q * (w / 2 / q) + (w % 2 + 2 * r) =
      grind (arith, div-add-mod (w / 2) q, div-add-mod w 2) in
    ap (λ x. x % (2 * q)) whole
    ∙ mul-add-mod_self_left (2 * q) (w / 2 / q) (w % 2 + 2 * r)
    ∙ mod-eq_of_lt (omega arith)

pow_pos : (i : ℕ) → 0 < 2 ^ i
pow_pos i = one-le-pow i 2 (omega arith)

set_bit_lem :
    (v src idx output : ℕ)
    → output < 2 ^ idx
    → (if bit v src then set_bit output idx else output) ≡ output + 2 ^ idx * (v / 2 ^ src % 2)
set_bit_lem v src idx output h = elim (Bool-cases (bit v src)) [
  | inl one' ↦
      rw (one', div-eq_of_lt h)
        (omega (arith, ap (λ b. 2 ^ idx * b) ((==_iff (v / 2 ^ src % 2) 1).0 one')))
  | inr none' ↦
      let zero' : v / 2 ^ src % 2 ≡ 0 = ground arith in
      rw none' (omega (arith, ap (λ b. 2 ^ idx * b) zero'))
]

pow_next : (i : ℕ) → 2 ^ (i + 1) ≡ 2 ^ i * 2
pow_next i = let e : i + 1 ≡ suc i = omega arith in ap (λ k. 2 ^ k) e ∙ pow-suc 2 i

gather : (o p q a b c : ℕ) → q ≡ p * 2 → c ≡ a + 2 * b → o + p * a + q * b ≡ o + p * c
gather o p q a b c e f =
    let products : o + p * a + p * 2 * b ≡ o + p * (a + 2 * b) = grind arith in
    ap (λ x. o + p * a + x * b) e ∙ products ∙ ap (λ x. o + p * x) (sym f)

-- `n` bits are copied.
pub copy_bits_lem :
    (n v src idx output : ℕ)
    → output < 2 ^ idx
    → copy_bits n v src idx output ≡ output + 2 ^ idx * (v / 2 ^ src % 2 ^ n)
unfolding copy_bits
copy_bits_lem zero v src idx output h = omega (arith, ap (λ b. 2 ^ idx * b) (mod-one (v / 2 ^ src)))
copy_bits_lem (suc n) v src idx output h =
    let w = v / 2 ^ src in
    let half : v / 2 ^ (src + 1) ≡ w / 2 =
      ap (λ p. v / p) (pow_next src) ∙ sym (div-div-eq-div-mul v (2 ^ src) 2) in
    let power : 2 ^ (idx + 1) ≡ 2 ^ idx * 2 = pow_next idx in
    let low : 2 ^ idx * (w % 2) ≤ 2 ^ idx = grind arith in
    let next : output + 2 ^ idx * (w % 2) < 2 ^ (idx + 1) = omega (arith, power, low) in
    let whole : w % 2 ^ suc n ≡ w % 2 + 2 * (w / 2 % 2 ^ n) =
      ap (λ p. w % p) (pow-succ' 2 n) ∙ double_mod w (2 ^ n) (pow_pos n) in
    ap (copy_bits n v (src + 1) (idx + 1)) (set_bit_lem v src idx output h)
    ∙ copy_bits_lem n v (src + 1) (idx + 1) (output + 2 ^ idx * (w % 2)) next
    ∙ ap (λ x. output + 2 ^ idx * (w % 2) + 2 ^ (idx + 1) * (x % 2 ^ n)) half
    ∙ gather output (2 ^ idx) (2 ^ (idx + 1)) (w % 2) (w / 2 % 2 ^ n) (w % 2 ^ suc n) power whole

pow_add : (i k : ℕ) → 2 ^ (i + k) ≡ 2 ^ i * 2 ^ k
pow_add i zero = let e : i + 0 ≡ i = omega arith in ap (λ j. 2 ^ j) e ∙ omega arith
pow_add i (suc k) =
    let e : i + suc k ≡ suc (i + k) = omega arith in
    let products : 2 ^ i * 2 ^ k * 2 ≡ 2 ^ i * (2 ^ k * 2) = grind arith in
    ap (λ j. 2 ^ j) e
    ∙ pow-suc 2 (i + k)
    ∙ ap (λ x. x * 2) (pow_add i k)
    ∙ products
    ∙ ap (λ x. 2 ^ i * x) (sym (pow-suc 2 k))

pub set_bit_fresh : (output i : ℕ) → output < 2 ^ i → set_bit output i ≡ output + 2 ^ i
set_bit_fresh output i h = rw (div-eq_of_lt h)

pub byte_fits :
    (idx output r : ℕ) → output < 2 ^ idx → r < 2 ^ 7 → output + 2 ^ idx * r < 2 ^ (idx + 7)
byte_fits idx output r h small =
    let power : 2 ^ (idx + 7) ≡ 2 ^ idx * 2 ^ 7 = pow_add idx 7 in
    let room : 2 ^ idx * r ≤ 2 ^ idx * (2 ^ 7 - 1) = grind arith in omega arith
