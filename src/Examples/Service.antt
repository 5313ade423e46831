-- ===== src/Examples/Service.antt =====
-- The image service with a stand-in for ImageMagick and a transport that loses nothing.
use cs8803_introduction_to_o.Common.{
  ℕ, ◌≡◌, refl, true, Option, none, some, List, [], ◌∷◌, Outcome, ok, fault, exited, starved, arith,
  ap, length, some_inj,
}
use cs8803_introduction_to_o.Minify.{minify_via_rpc}
use cs8803_introduction_to_o.Minify.Service.{
  Xdr, Answer, nothing, no_procedure, undecodable, system_error, result, minifyjpeg_prog_1, IsCall,
  minifyjpeg_proc_1, minify_via_rpc-magickminify,
}

-- The bytes go over as they are.
abbrev plain : Xdr
plain = record {
  encode = λ bytes. bytes;
  decode = λ bytes. some bytes;
  decode-encode = λ bytes h. refl;
}

-- One byte for every picture.
abbrev first_byte : List ℕ → Option (List ℕ)
first_byte [] = none
first_byte (b ∷ bytes) = some (b ∷ [])

abbrev bytes_of : Outcome Answer → Option (List ℕ)
bytes_of (ok (result bytes)) = some bytes
bytes_of (ok nothing) = none
bytes_of (ok no_procedure) = none
bytes_of (ok undecodable) = none
bytes_of (ok system_error) = none
bytes_of fault = none
bytes_of (exited n) = none
bytes_of starved = none

abbrev direct : (proc : ℕ) → (arguments : List ℕ) → Option (List ℕ)
direct proc arguments = bytes_of (minifyjpeg_prog_1 plain first_byte true true proc arguments)

direct-IsCall : IsCall plain first_byte direct
direct-IsCall = record {
  answered = λ proc arguments bytes e. rw e refl;
  unanswered = λ proc arguments e. rw e refl;
}

minify_via_rpc-magickminify_example :
    minify_via_rpc (minifyjpeg_proc_1 plain first_byte direct) (7 ∷ 8 ∷ []) ≡ ok (7 ∷ [])
minify_via_rpc-magickminify_example =
    minify_via_rpc-magickminify plain first_byte direct (7 ∷ 8 ∷ []) direct-IsCall (omega arith)
      (λ dst made. omega (arith, ap length (some_inj made)))
