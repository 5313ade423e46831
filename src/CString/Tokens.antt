-- ===== src/CString/Tokens.antt =====
-- What `strtok` finds in a text whose next token is known.
use cs8803_introduction_to_o.Common.{
  ℕ, zero, suc, ◌≡◌, refl, sym, ap, ◌∙◌, ◌≢◌, true, false, some, List, [], ◌∷◌, ◌++◌, arith,
}
use mathlib.Core.List.{append_assoc, append-nil}
use cs8803_introduction_to_o.CString.{codes, is_delim, Token, finish, strtok}
use cs8803_introduction_to_o.CString.Decimal.{Digits}

-- No byte is a NUL or a delimiter.
abbrev pub Plain : List ℕ → List ℕ → Type 0
Plain ds [] = Unit {0}
Plain ds (c ∷ t) = (c ≢ 0) × (is_delim ds c ≡ false) × Plain ds t

pub Digits-Plain : (t : List ℕ) → Digits t → Plain (codes " \r\n") t
Digits-Plain [] h = tt
Digits-Plain (c ∷ t) h = (omega arith, ground arith, Digits-Plain t h.2)

-- The token that ends at a delimiter.
abbrev pub ended : List ℕ → List ℕ → Token
ended t m = record { token = some t; passed = t ++ 0 ∷ []; rest = m }

finish-ended :
    (ds a t m : List ℕ) (d : ℕ)
    → Plain ds t
    → d ≢ 0
    → is_delim ds d ≡ true
    → finish ds a a (t ++ d ∷ m) ≡ ended (a ++ t) m
unfolding finish
finish-ended ds a [] m zero plain nz isd = absurd (nz refl)
finish-ended ds a [] m (suc d) plain nz isd = rw isd (ap (λ u. ended u m) (sym (append-nil a)))
finish-ended ds a (zero ∷ t) m d plain nz isd = absurd (plain.0 refl)
finish-ended ds a (suc c ∷ t) m d plain nz isd = rw plain.1 (
    finish-ended ds (a ++ suc c ∷ []) t m d plain.2 nz isd
    ∙ ap (λ u. ended u m) (append_assoc a (suc c ∷ []) t))

pub strtok-ended :
    (ds : List ℕ) (c : ℕ) (t m : List ℕ) (d : ℕ)
    → Plain ds (c ∷ t)
    → d ≢ 0
    → is_delim ds d ≡ true
    → strtok ds ((c ∷ t) ++ d ∷ m) ≡ ended (c ∷ t) m
unfolding strtok
strtok-ended ds zero t m d plain nz isd = absurd (plain.0 refl)
strtok-ended ds (suc c) t m d plain nz isd =
    rw plain.1 (finish-ended ds (suc c ∷ []) t m d plain.2 nz isd)

finish_nodelim : (t p m : List ℕ) → (finish [] t p m).passed ++ (finish [] t p m).rest ≡ p ++ m
unfolding finish
finish_nodelim t p [] = refl
finish_nodelim t p (zero ∷ m) = refl
finish_nodelim t p (suc c ∷ m) =
    finish_nodelim (t ++ suc c ∷ []) (p ++ suc c ∷ []) m ∙ append_assoc p (suc c ∷ []) m

-- With no delimiters the memory stays as it is.
pub strtok_nodelim : (m : List ℕ) → (strtok [] m).passed ++ (strtok [] m).rest ≡ m
unfolding strtok
strtok_nodelim [] = refl
strtok_nodelim (zero ∷ m) = refl
strtok_nodelim (suc c ∷ m) = finish_nodelim (suc c ∷ []) (suc c ∷ []) m
