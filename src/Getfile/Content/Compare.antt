-- ===== src/Getfile/Content/Compare.antt =====
-- The order of texts by `strcmp`.
use cs8803_introduction_to_o.Common.{ℕ, ◌≡◌, refl, ◌≢◌, List, [], ◌∷◌, arith}
use cs8803_introduction_to_o.CString.{less, equal, greater, strcmp}

pub strcmp-eq : (s t : List ℕ) → strcmp s t ≡ equal → s ≡ t
unfolding strcmp
strcmp-eq [] [] h = refl
strcmp-eq [] (b ∷ t) h = cc
strcmp-eq (a ∷ s) [] h = cc
strcmp-eq (a ∷ s) (b ∷ t) h = ground (arith, strcmp-eq s t)

pub strcmp_self : (s : List ℕ) → strcmp s s ≡ equal
unfolding strcmp
strcmp_self [] = refl
strcmp_self (a ∷ s) = ground (arith, strcmp_self s)

-- `s < t` and `t <= u` give `s < u`.
pub strcmp_less_trans :
    (s t u : List ℕ) → strcmp s t ≡ less → strcmp t u ≢ greater → strcmp s u ≡ less
unfolding strcmp
strcmp_less_trans [] [] u h k = cc
strcmp_less_trans [] (b ∷ t) [] h k = absurd (k refl)
strcmp_less_trans [] (b ∷ t) (c ∷ u) h k = refl
strcmp_less_trans (a ∷ s) [] u h k = cc
strcmp_less_trans (a ∷ s) (b ∷ t) [] h k = absurd (k refl)
strcmp_less_trans (a ∷ s) (b ∷ t) (c ∷ u) h k = ground (arith, strcmp_less_trans s t u)

-- `s > t` and `u <= t` give `s > u`.
pub strcmp_greater_trans :
    (s t u : List ℕ) → strcmp s t ≡ greater → strcmp u t ≢ greater → strcmp s u ≡ greater
unfolding strcmp
strcmp_greater_trans [] [] u h k = cc
strcmp_greater_trans [] (b ∷ t) u h k = cc
strcmp_greater_trans (a ∷ s) [] [] h k = refl
strcmp_greater_trans (a ∷ s) [] (c ∷ u) h k = absurd (k refl)
strcmp_greater_trans (a ∷ s) (b ∷ t) [] h k = refl
strcmp_greater_trans (a ∷ s) (b ∷ t) (c ∷ u) h k = ground (arith, strcmp_greater_trans s t u)
