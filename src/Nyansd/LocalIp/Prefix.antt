-- ===== src/Nyansd/LocalIp/Prefix.antt =====
-- The texts that are cut at their last separator.
use nyan_sd.Base.{
  ℕ, zero, suc, ◌+◌, ◌≤◌, ◌≡◌, refl, none, some, List, [], ◌∷◌, ◌++◌, arith, ==_refl, drop, length,
  length-append, append_assoc, text, Bytes,
}
use nyan_sd.Nyansd.LocalIp.{before_last, erase_after_last}
use nyan_sd.Nyansd.SendQuery.{broadcast_address}

before_last-append :
    (c : ℕ) (p t : Bytes) → before_last c t ≡ none → before_last c (p ++ (c ∷ t)) ≡ some p
unfolding before_last
before_last-append c [] t h = rw (h, before_last, ==_refl c)
before_last-append c (b ∷ p) t h = rw (before_last-append c p t h, before_last)

pub erase_after_last-append :
    (c : ℕ) (p t : Bytes) → before_last c t ≡ none → erase_after_last c (p ++ (c ∷ t)) ≡ p ++ c ∷ []
unfolding erase_after_last
erase_after_last-append c p t h = rw (before_last-append c p t h, erase_after_last)

drop-short {ℓ} : {A : Type ℓ} (n : ℕ) (xs : List A) → length xs ≤ n → drop n xs ≡ []
drop-short zero [] h = refl
drop-short (suc n) [] h = refl
drop-short zero (x ∷ xs) h = absurd (omega arith)
drop-short (suc n) (x ∷ xs) h = drop-short n xs (omega arith)

-- The broadcast address of an address whose last part, behind its last dot, has at most three
-- characters is that address with 255 for the last part.
pub broadcast_address_lem :
    (p last : Bytes)
    → before_last b'.' last ≡ none
    → length last ≤ 3
    → broadcast_address (p ++ (b'.' ∷ last)) ≡ p ++ text ".255"
unfolding broadcast_address
broadcast_address_lem p last h short =
    rw (erase_after_last-append b'.' p last h, tail) (append_assoc p (b'.' ∷ []) (text "255"))
  where
    tail : drop (length (p ++ b'.' ∷ []) + 3) (p ++ (b'.' ∷ last)) ≡ []
    tail =
        drop-short (length (p ++ b'.' ∷ []) + 3) (p ++ (b'.' ∷ last))
          (omega (arith, length-append p (b'.' ∷ []), length-append p (b'.' ∷ last)))
