-- ===== src/Minify/Readings.antt =====
-- What an answered turn of a thread of proj4/minifyjpeg_main.c says.
use cs8803_introduction_to_o.Common.{
  exited_not_ok, fault_not_ok, ℕ, ◌≡◌, refl, ap, ◌∙◌, ◌⊎◌, inl, inr, Bool, true, Option, some, List,
  [], ◌∷◌, leb, length, ok, ok_injective, Bool-cases, Option-cases, arith,
}
use cs8803_introduction_to_o.CString.{str_eq}
use cs8803_introduction_to_o.Minify.{
  Request, Files, read_from_file, minify_via_rpc, taking, ended, reading, calling, writing,
}

pub str_eq→eq : (s t : List ℕ) → str_eq s t ≡ true → s ≡ t
str_eq→eq [] [] e = refl
str_eq→eq [] (b ∷ t) e = cc
str_eq→eq (a ∷ s) [] e = cc
str_eq→eq (a ∷ s) (b ∷ t) e = ground (arith, str_eq→eq s t)

pub str_eq_self : (s : List ℕ) → str_eq s s ≡ true
str_eq_self [] = refl
str_eq_self (a ∷ s) = ground (arith, str_eq_self s)

pub taking_not_ended : taking ≡ ended → ⊥
taking_not_ended e = cc

pub reading_not_ended : {r : Request} → reading r ≡ ended → ⊥
reading_not_ended e = cc

pub calling_not_ended : {r : Request} {src : List ℕ} → calling r src ≡ ended → ⊥
calling_not_ended e = cc

pub writing_not_ended : {r : Request} {dst : List ℕ} → writing r dst ≡ ended → ⊥
writing_not_ended e = cc

pub cons_not_nil : {r : Request} {rs : List Request} → r ∷ rs ≡ [] → ⊥
cons_not_nil e = cc

pub queue-cases :
    (q : List Request) → (q ≡ []) ⊎ ((r : Request) × (rest : List Request) × (q ≡ r ∷ rest))
queue-cases [] = inl refl
queue-cases (r ∷ rest) = inr (r, rest, refl)

-- A request is on a list.
abbrev pub Among : Request → List Request → Type 0
Among r [] = ⊥
Among r (x ∷ xs) = (r ≡ x) ⊎ Among r xs

pub read_from_file-ok :
    (room : Bool) (files : Files) (name src : List ℕ)
    → read_from_file room files name ≡ ok src
    → files name ≡ some src
unfolding read_from_file
read_from_file-ok room files name src e = elim (Option-cases (files name)) [
  | inl missing ↦ absurd (exited_not_ok (rw (read_from_file, missing) at e))
  | inr (text, found) ↦ elim (Bool-cases room) [
    | inl roomy ↦ found ∙ ap some (ok_injective (rw (read_from_file, found, roomy) at e))
    | inr full ↦ absurd (exited_not_ok (rw (read_from_file, found, full) at e))
  ]
]

pub minify_via_rpc-ok :
    (rpc : List ℕ → Option (List ℕ)) (src dst : List ℕ)
    → minify_via_rpc rpc src ≡ ok dst
    → rpc src ≡ some dst
unfolding minify_via_rpc
minify_via_rpc-ok rpc src dst e = elim (Option-cases (rpc src)) [
  | inl failed ↦ absurd (exited_not_ok (rw (minify_via_rpc, failed) at e))
  | inr (answer, given) ↦ elim (Bool-cases (leb (length answer) (length src))) [
    | inl fitting ↦ given ∙ ap some (ok_injective (rw (minify_via_rpc, given, fitting) at e))
    | inr long ↦ absurd (fault_not_ok (rw (minify_via_rpc, given, long) at e))
  ]
]
