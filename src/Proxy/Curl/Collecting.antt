-- ===== src/Proxy/Curl/Collecting.antt =====
-- The download of proj3/handle_with_curl.c: what `write_callback` gathers.
use mathlib.Core.List.{append_assoc, append-nil}
use cs8803_introduction_to_o.Common.{
  ℕ, ◌+◌, ◌*◌, ◌%◌, ◌<◌, ◌≡◌, refl, Bool, true, some, List, [], ◌∷◌, ◌++◌, arith, subst, length,
  length-append, take, take_all, take-append, concat, u64_mod,
}
use cs8803_introduction_to_o.Proxy.Curl.{Memory, fresh, write_callback}

-- The callback of libcurl, which gives it a size of 1.
abbrev pub Callback : Type 0
Callback = Bool → List ℕ → (size nmemb : ℕ) → Memory → ℕ × Memory

-- A body in pieces, each of which the callback finds room for.
abbrev pub deliver : Callback → List (List ℕ) → Memory → Memory
deliver callback [] m = m
deliver callback (ch ∷ chs) m = deliver callback chs (callback true ch 1 (length ch) m).1

-- The memory has these bytes in front.
pub record Holds (m : Memory) (xs : List ℕ) : Type 0 where
  pub block : List ℕ
  pub is_block : m.memory ≡ some block
  pub counted : m.size ≡ length xs
  pub front : take (length xs) block ≡ xs

fresh-Holds : (junk : ℕ) → Holds (fresh junk) []
fresh-Holds junk = record { block = junk ∷ []; is_block = refl; counted = refl; front = refl }

write_callback-Holds :
    (m : Memory) (xs ch : List ℕ)
    → Holds m xs
    → length ch < u64_mod
    → Holds (write_callback true ch 1 (length ch) m).1 (xs ++ ch)
unfolding write_callback
write_callback-Holds m xs ch h small =
    let whole : (1 * length ch) % u64_mod ≡ length ch = ground arith in
    record {
      block = xs ++ ch ++ 0 ∷ [];
      is_block =
          rw (h.is_block, whole, h.counted, h.front, take_all (length ch) ch (omega arith)) refl;
      counted = rw (whole, length-append xs ch, h.counted) refl;
      front = take-append (xs ++ ch) (0 ∷ []);
    }

deliver-Holds :
    (chs : List (List ℕ)) (m : Memory) (xs : List ℕ)
    → Holds m xs
    → length (concat chs) < u64_mod
    → Holds (deliver write_callback chs m) (xs ++ concat chs)
deliver-Holds [] m xs h small = rw (append-nil xs) h
deliver-Holds (ch ∷ chs) m xs h small =
    let parts : length (ch ++ concat chs) ≡ length ch + length (concat chs) =
      length-append ch (concat chs) in
    subst (Holds _) (append_assoc xs ch (concat chs))
      (deliver-Holds chs _ (xs ++ ch) (write_callback-Holds m xs ch h (omega arith)) (omega arith))

-- x
pub write_callback-collects :
    (chs : List (List ℕ)) (junk : ℕ)
    → length (concat chs) < u64_mod
    → Holds (deliver write_callback chs (fresh junk)) (concat chs)
write_callback-collects chs junk small = deliver-Holds chs (fresh junk) [] (fresh-Holds junk) small
