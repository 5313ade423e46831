-- ===== src/CString/Decimal.antt =====
-- Printing and reading a number in decimal.
use cs8803_introduction_to_o.Common.{
  ℕ, zero, suc, ◌+◌, ◌*◌, ◌/◌, ◌%◌, ◌^◌, ◌≤◌, ◌<◌, ◌≡◌, refl, sym, ap, ◌∙◌, subst, inl, inr, List,
  [], ◌∷◌, ◌++◌, arith, ltb, Bool-cases, ltb→lt, ltb_false→le, le→leb, lt→leb, lt→ltb, ne→==,
  length, length-append, pos,
}
use mathlib.Core.List.{append_assoc, append-nil}
use native.Mathlib.Nat.{pow-suc}
use cs8803_introduction_to_o.CString.{digits_from, decimal, read_digits, atol}

-- Every byte is a digit.
abbrev pub Digits : List ℕ → Type 0
Digits [] = Unit {0}
Digits (c ∷ m) = (48 ≤ c) × (c ≤ 57) × Digits m

Digits-append : (xs ys : List ℕ) → Digits xs → Digits ys → Digits (xs ++ ys)
Digits-append [] ys h k = k
Digits-append (x ∷ xs) ys h k = (h.0, h.1, Digits-append xs ys h.2 k)

digits_from-Digits : (f n : ℕ) → Digits (digits_from f n)
unfolding digits_from
digits_from-Digits zero n = tt
digits_from-Digits (suc f) n = elim (Bool-cases (ltb n 10)) [
  | inl small ↦ rw small (omega (arith, ltb→lt n 10 small))
  | inr big ↦
      rw big
        (Digits-append (digits_from f (n / 10)) _ (digits_from-Digits f (n / 10)) (omega arith))
]

pub decimal-Digits : (n : ℕ) → Digits (decimal n)
unfolding decimal
decimal-Digits n = digits_from-Digits (suc n) n

-- A digit in front of the rest is read into the accumulator.
read_digits-cons :
    (acc d k : ℕ) (r : List ℕ)
    → d < 10
    → acc * 10 + d ≡ k
    → read_digits acc ((48 + d) ∷ r) ≡ read_digits k r
unfolding read_digits
read_digits-cons acc d k r small e =
    rw (le→leb 48 (48 + d) (omega arith), le→leb (48 + d) 57 (omega arith))
      (ap (λ t. read_digits t r) (omega arith))

read_digits-digits_from :
    (f n : ℕ) (r : List ℕ) → n < f → read_digits 0 (digits_from f n ++ r) ≡ read_digits n r
unfolding digits_from
read_digits-digits_from zero n r h = absurd (omega arith)
read_digits-digits_from (suc f) n r h = elim (Bool-cases (ltb n 10)) [
  | inl small ↦ rw small (read_digits-cons 0 n n r (ltb→lt n 10 small) (omega arith))
  | inr big ↦ rw big (
      ap (read_digits 0) (append_assoc (digits_from f (n / 10)) ((48 + n % 10) ∷ []) r)
      ∙ read_digits-digits_from f (n / 10) ((48 + n % 10) ∷ r)
          (omega (arith, ltb_false→le n 10 big))
      ∙ read_digits-cons (n / 10) (n % 10) n r (omega arith) (omega arith))
]

read_digits-decimal : (n : ℕ) → read_digits 0 (decimal n) ≡ n
unfolding decimal
read_digits-decimal n =
    ap (read_digits 0) (sym (append-nil (digits_from (suc n) n)))
    ∙ read_digits-digits_from (suc n) n [] (omega arith)
    ∙ nothing_left n
  where
    nothing_left : (k : ℕ) → read_digits k [] ≡ k
    nothing_left k = unfold read_digits in refl

-- The first byte is a digit.
pub decimal-cons : (n : ℕ) → (c : ℕ) × (m : List ℕ) × (decimal n ≡ c ∷ m)
unfolding decimal digits_from
decimal-cons n = elim (Bool-cases (ltb n 10)) [
  | inl small ↦ rw small (48 + n, [], refl)
  | inr big ↦ rw big (cons_append (digits_from n (n / 10)) (48 + n % 10))
]
  where
    cons_append : (xs : List ℕ) (y : ℕ) → (c : ℕ) × (m : List ℕ) × (xs ++ y ∷ [] ≡ c ∷ m)
    cons_append [] y = (y, [], refl)
    cons_append (x ∷ xs) y = (x, xs ++ y ∷ [], refl)

atol_digit : (c : ℕ) (m : List ℕ) → 48 ≤ c → c ≤ 57 → atol (c ∷ m) ≡ pos (read_digits 0 (c ∷ m))
unfolding atol
atol_digit c m lo hi =
    rw
      (
        ne→== c 32 (omega arith),
        le→leb 9 c (omega arith),
        lt→leb c 13 (omega arith),
        ne→== c b'-' (omega arith),
        ne→== c b'+' (omega arith),
      )
      refl

-- Reading what was printed gives the number back.
pub atol-decimal : (n : ℕ) → atol (decimal n) ≡ pos n
atol-decimal n =
    let (c, m, e) = decimal-cons n in
    let d : Digits (c ∷ m) = subst Digits e (decimal-Digits n) in
    ap atol e
    ∙ atol_digit c m d.0 d.1
    ∙ ap (λ t. pos (read_digits 0 t)) (sym e)
    ∙ ap pos (read_digits-decimal n)

length-digits_from : (f k n : ℕ) → n < 10 ^ suc k → length (digits_from f n) ≤ suc k
unfolding digits_from
length-digits_from zero k n h = omega arith
length-digits_from (suc f) zero n h = rw (lt→ltb n 10 (omega arith)) (omega arith)
length-digits_from (suc f) (suc k) n h = elim (Bool-cases (ltb n 10)) [
  | inl small ↦ rw small (omega arith)
  | inr big ↦ rw big (
      omega (
        arith,
        length-append (digits_from f (n / 10)) ((48 + n % 10) ∷ []),
        length-digits_from f k (n / 10) omega (arith, pow-suc 10 (suc k)),
      ))
]

pub length-decimal : (k n : ℕ) → n < 10 ^ suc k → length (decimal n) ≤ suc k
unfolding decimal
length-decimal k n h = length-digits_from (suc n) k n h
