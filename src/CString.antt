-- ===== src/CString.antt =====
-- The functions of the C library that the programs use on text, over lists of bytes.
-- A list stands for the memory from an address on, and what lies behind its end counts as a NUL.
pub mod Decimal
pub mod Tokens
use Prim.Native.Char.{code}
use Prim.Native.String.{String}
use cs8803_introduction_to_o.Common.{
  ℕ, zero, suc, ◌+◌, ◌-◌, ◌*◌, ◌/◌, ◌%◌, Bool, true, false, ◌&&◌, ◌||◌, Option, none, some, List,
  [], ◌∷◌, ◌++◌, ◌==◌, ltb, leb, if◌then◌else◌, length, Outcome, ok, fault, ℤ, ◌<◌, ◌≡◌, refl,
  le→leb, lt→leb, ◌≤◌, arith, pos, negsuc,
}

-- The bytes of a literal.
abbrev pub codes : String → List ℕ
codes String.[] = []
codes (String.◌∷◌ c s) = code c ∷ codes s

-- The string at an address: the bytes in front of the first NUL. Its length is `strlen`.
abbrev pub c_str : List ℕ → List ℕ
c_str [] = []
c_str (zero ∷ m) = []
c_str (suc c ∷ m) = suc c ∷ c_str m

abbrev pub strlen : List ℕ → ℕ
strlen m = length (c_str m)

-- `strcmp(s, t)`: negative, zero or positive.
pub data Order : Type 0 where
  less equal greater : Order

unfoldable pub strcmp : List ℕ → List ℕ → Order
strcmp [] [] = equal
strcmp [] (b ∷ t) = less
strcmp (a ∷ s) [] = greater
strcmp (a ∷ s) (b ∷ t) =
    let rest = strcmp s t in if ltb a b then less else if ltb b a then greater else rest

-- `strcmp(s, t) == 0`
abbrev pub str_eq : List ℕ → List ℕ → Bool
str_eq [] [] = true
str_eq [] (b ∷ t) = false
str_eq (a ∷ s) [] = false
str_eq (a ∷ s) (b ∷ t) = (a == b) && str_eq s t

-- What `strcpy` and `strcat` leave in a buffer of `size` bytes: too long a text faults.
unfoldable pub fits : (size : ℕ) → List ℕ → Outcome (List ℕ)
fits size s = if leb (length s + 1) size then ok s else fault

pub fits-ok : (room : ℕ) (s : List ℕ) → length s < room → fits room s ≡ ok s
unfolding fits
fits-ok room s h = rw (le→leb (length s + 1) room (omega arith))

pub fits-fault : (room : ℕ) (s : List ℕ) → room ≤ length s → fits room s ≡ fault
unfolding fits
fits-fault room s h = rw (lt→leb (length s + 1) room (omega arith)) refl

-- A byte of the delimiters; never the NUL.
abbrev pub is_delim : List ℕ → ℕ → Bool
is_delim [] c = false
is_delim (d ∷ ds) c = (c == d) || is_delim ds c

-- One call of `strtok`: the token, the memory that the call passes over, and the rest, where the
-- next call begins. The delimiter behind the token is overwritten by a NUL.
pub record Token : Type 0 where
  pub token : Option (List ℕ)
  pub passed : List ℕ
  pub rest : List ℕ

pub finish : List ℕ → (token passed : List ℕ) → List ℕ → Token
finish ds t p [] = record { token = some t; passed = p; rest = [] }
finish ds t p (zero ∷ m) = record { token = some t; passed = p; rest = zero ∷ m }
finish ds t p (suc c ∷ m) =
    let more = finish ds (t ++ suc c ∷ []) (p ++ suc c ∷ []) m in
    if is_delim ds (suc c) then record { token = some t; passed = p ++ 0 ∷ []; rest = m } else more

start : List ℕ → List ℕ → List ℕ → Token
unfolding finish
start ds p [] = record { token = none; passed = p; rest = [] }
start ds p (zero ∷ m) = record { token = none; passed = p; rest = zero ∷ m }
start ds p (suc c ∷ m) =
    let skip = start ds (p ++ suc c ∷ []) m in
    if is_delim ds (suc c) then skip else finish ds (suc c ∷ []) (p ++ suc c ∷ []) m

unfoldable pub strtok : List ℕ → List ℕ → Token
unfolding start
strtok ds m = start ds [] m

abbrev is_digit : ℕ → Bool
is_digit c = leb 48 c && leb c 57

-- The decimal digits of a number, as `%zu` prints it; the fuel n + 1 is enough.
unfoldable pub digits_from : ℕ → ℕ → List ℕ
digits_from zero n = []
digits_from (suc f) n =
    let more = digits_from f (n / 10) in
    if ltb n 10 then (48 + n) ∷ [] else more ++ (48 + n % 10) ∷ []

unfoldable pub decimal : ℕ → List ℕ
unfolding digits_from
decimal n = digits_from (suc n) n

-- `atol` and `atoi`: white space, a sign, and digits up to the first other byte.
pub read_digits : ℕ → List ℕ → ℕ
read_digits acc [] = acc
read_digits acc (c ∷ m) =
    let more = read_digits (acc * 10 + (c - 48)) m in if is_digit c then more else acc

abbrev neg : ℕ → ℤ
neg zero = pos 0
neg (suc n) = negsuc n

read_sign : List ℕ → ℤ
unfolding read_digits
read_sign [] = pos 0
read_sign (c ∷ m) =
    if c == b'-'
    then neg (read_digits 0 m)
    else if c == b'+'
    then pos (read_digits 0 m)
    else pos (read_digits 0 (c ∷ m))

abbrev pub is_space : ℕ → Bool
is_space c = c == 32 || leb 9 c && leb c 13

unfoldable pub atol : List ℕ → ℤ
unfolding read_sign
atol [] = pos 0
atol (c ∷ m) = let more = atol m in if is_space c then more else read_sign (c ∷ m)
