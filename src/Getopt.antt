-- ===== src/Getopt.antt =====
-- The loops over the command line that the programs share: `getopt` and `getopt_long` give one option
-- after the other, with its argument, and a `switch` handles it. An option that they do not know, or
-- whose argument is missing, is a question mark.
use cs8803_introduction_to_o.Common.{
  ℕ, ◌≡◌, Option, none, some, List, [], ◌∷◌, ◌==◌, Bool, if◌then◌else◌, arith, Outcome, ok, ◌>>=◌,
}

-- `while ((option_char = getopt_long(...)) != -1) switch (option_char) ...`
unfoldable pub each_option {ℓ} :
    {S : Type ℓ}
    → (switch : ℕ → List ℕ → S → Outcome S) → (argv : List (ℕ × List ℕ)) → S
    → Outcome S
each_option switch [] s = ok s
each_option switch ((c, optarg) ∷ argv) s = switch c optarg s >>= λ s'. each_option switch argv s'

-- The argument of the last occurrence of an option.
last_arg : ℕ → List (ℕ × List ℕ) → Option (List ℕ)
last_arg c [] = none
last_arg c ((k, optarg) ∷ argv) = elim (last_arg c argv) [
  | some later ↦ some later
  | none ↦ if k == c then some optarg else none
]

-- What the last occurrence of an option sets, and the value without one.
unfoldable pub given {ℓ} :
    {A : Type ℓ} → ℕ → (read : List ℕ → A) → (argv : List (ℕ × List ℕ)) → (default : A) → A
unfolding last_arg
given c read argv default = elim (last_arg c argv) [ none ↦ default | some optarg ↦ read optarg ]

-- The first option that is none of the given ones.
unfoldable pub first_other : (ℕ → Bool) → List (ℕ × List ℕ) → Option ℕ
first_other known [] = none
first_other known ((k, optarg) ∷ argv) = if known k then first_other known argv else some k

pub given-cons {ℓ} :
    {A : Type ℓ} (c : ℕ) (read : List ℕ → A) (k : ℕ) (optarg : List ℕ) (argv : List (ℕ × List ℕ))
    (default : A)
    → given c read ((k, optarg) ∷ argv) default
      ≡ given c read argv (if k == c then read optarg else default)
unfolding given
given-cons c read k optarg argv default = ground arith
