-- ===== src/Minify/Loading.antt =====
-- A workload file of proj4/minifyjpeg_main.c that was written line by line is read back.
use mathlib.Core.List.{append_assoc, append-nil}
use cs8803_introduction_to_o.Common.{
  ℕ, ◌<◌, ◌≡◌, ◌≢◌, refl, sym, ap, ◌∙◌, true, false, some, List, [], ◌∷◌, ◌++◌, length, ok,
}
use cs8803_introduction_to_o.CString.{is_space, fits-ok}
use cs8803_introduction_to_o.Minify.{Request, push_word, words_from, requests_of, load_requests}

-- A line for each request.
abbrev pub lines_of : List Request → List ℕ
lines_of [] = []
lines_of (r ∷ rs) = r.inputfilename ++ b' ' ∷ (r.outputfilename ++ b'\n' ∷ lines_of rs)

abbrev NoSpace : List ℕ → Type 0
NoSpace [] = Unit {0}
NoSpace (c ∷ name) = (is_space c ≡ false) × NoSpace name

-- A name that `%s` reads whole, and that fits its array.
pub record IsName (name : List ℕ) : Type 0 where
  pub nonempty : name ≢ []
  pub spaceless : NoSpace name
  pub short : length name < 256

abbrev pub AllNamed : List Request → Type 0
AllNamed [] = Unit {0}
AllNamed (r ∷ rs) = IsName r.inputfilename × IsName r.outputfilename × AllNamed rs

words_from-name :
    (word name : List ℕ) (c : ℕ) (rest : List ℕ)
    → NoSpace name
    → is_space c ≡ true
    → words_from word (name ++ c ∷ rest) ≡ push_word (word ++ name) (words_from [] rest)
words_from-name word [] c rest clean space =
    rw space (ap (λ w. push_word w (words_from [] rest)) (sym (append-nil word)))
words_from-name word (d ∷ name) c rest clean space = rw (clean.0) (
    words_from-name (word ++ d ∷ []) name c rest clean.1 space
    ∙ ap (λ w. push_word w (words_from [] rest)) (append_assoc word (d ∷ []) name))

push_word-cons :
    (word : List ℕ) (rest : List (List ℕ)) → word ≢ [] → push_word word rest ≡ word ∷ rest
push_word-cons [] rest some_byte = absurd (some_byte refl)
push_word-cons (c ∷ word) rest some_byte = refl

words_from-line :
    (r : Request) (rest : List ℕ)
    → IsName r.inputfilename
    → IsName r.outputfilename
    → words_from [] (r.inputfilename ++ b' ' ∷ (r.outputfilename ++ b'\n' ∷ rest))
      ≡ r.inputfilename ∷ r.outputfilename ∷ words_from [] rest
words_from-line r rest input output =
    words_from-name [] r.inputfilename b' ' (r.outputfilename ++ b'\n' ∷ rest) input.spaceless refl
    ∙ push_word-cons r.inputfilename (words_from [] (r.outputfilename ++ b'\n' ∷ rest))
        input.nonempty
    ∙ ap (λ ws. r.inputfilename ∷ ws)
        (words_from-name [] r.outputfilename b'\n' rest output.spaceless refl
          ∙ push_word-cons r.outputfilename (words_from [] rest) output.nonempty)

requests_of-lines_of :
    (junk : List ℕ) (rs : List Request)
    → AllNamed rs
    → requests_of junk (words_from [] (lines_of rs)) ≡ ok rs
requests_of-lines_of junk [] named = refl
requests_of-lines_of junk (r ∷ rs) (input, output, named) =
    rw
      (
        words_from-line r (lines_of rs) input output,
        fits-ok 256 r.inputfilename input.short,
        fits-ok 256 r.outputfilename output.short,
        requests_of-lines_of junk rs named,
      )
      refl

-- For requests whose names are not empty, have no white space and have fewer than 256 bytes:
-- load_requests on a file of a line for each, the two names with a blank between them, gives back
-- the requests in their order.
pub load_requests-lines_of :
    (junk : List ℕ) (rs : List Request)
    → AllNamed rs
    → load_requests junk (some (lines_of rs)) ≡ ok rs
unfolding load_requests
load_requests-lines_of junk rs named = requests_of-lines_of junk rs named
