-- ===== src/Examples/Pictures.antt =====
-- One picture, minified by one thread of proj4.
use cs8803_introduction_to_o.Common.{
  ok, set_at, ℕ, false, ◌≡◌, refl, true, Option, none, some, List, [], ◌∷◌, arith, if◌then◌else◌,
}
use cs8803_introduction_to_o.CString.{str_eq, codes, is_space}
use cs8803_introduction_to_o.Minify.{
  load_requests, Request, Files, write_to_file, taking, ended, reading, calling, writing, Program,
  start,
}
use cs8803_introduction_to_o.Minify.Loading.{lines_of, IsName, AllNamed, load_requests-lines_of}

abbrev picture : Request
picture = record { inputfilename = codes "a"; outputfilename = codes "b" }

abbrev disk : Files
disk name =
    if str_eq name (codes "a")
    then some (9 ∷ 9 ∷ [])
    else if str_eq name (codes "workload.txt")
    then some (lines_of (picture ∷ []))
    else none

-- The service gives back one byte.
abbrev service : List ℕ → Option (List ℕ)
service src = some (1 ∷ [])

abbrev minified : Program
minified = record {
  files = write_to_file true disk (codes "b") (1 ∷ []);
  queue = [];
  workers =
      set_at
        (set_at
          (set_at
            (set_at (set_at (start 1 disk (picture ∷ [])).workers 0 (reading picture)) 0
              (calling picture (9 ∷ 9 ∷ [])))
            0 (writing picture (1 ∷ [])))
          0 taking)
        0 ended;
}

letter-IsName : (c : ℕ) → is_space c ≡ false → IsName (c ∷ [])
letter-IsName c visible = record {
  nonempty = λ e. cc;
  spaceless = (visible, tt);
  short = omega arith;
}

picture-Named : AllNamed (picture ∷ [])
picture-Named = (letter-IsName b'a' refl, letter-IsName b'b' refl, tt)

load_requests-lines_of_example : load_requests [] (some (codes "a b\n")) ≡ ok (picture ∷ [])
load_requests-lines_of_example = load_requests-lines_of [] (picture ∷ []) picture-Named
