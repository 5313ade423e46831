-- ===== src/Getfile/RoundTrip.antt =====
-- A client of the client library and the server with its file handler, over one connection.
use cs8803_introduction_to_o.Common.{
  ℕ, ◌+◌, ◌≤◌, ◌<◌, ◌≡◌, ◌≢◌, true, Option, some, List, [], ◌++◌, length, drop, concat, Outcome, ok,
  ℤ, pos, u64_mod,
}
use cs8803_introduction_to_o.CString.{codes}
use cs8803_introduction_to_o.CString.Tokens.{Plain}
use cs8803_introduction_to_o.Socket.{got, buffer_size}
use cs8803_introduction_to_o.Getfile.Response.Header.{announce}
use cs8803_introduction_to_o.Getfile.Handler.{Round}
use cs8803_introduction_to_o.Getfile.Handler.Success.{Moves}
use cs8803_introduction_to_o.Getfile.Client.{Request}
use cs8803_introduction_to_o.Getfile.Client.Body.{Chunks}
use cs8803_introduction_to_o.Getfile.Client.Transfer.{request_text}
use cs8803_introduction_to_o.Getfile.Serve.{Visit}
use cs8803_introduction_to_o.Getfile.Serve.Understood.{Clean}

module _ (content_get : Option (List ℕ) → Outcome ℤ) (file_of : ℕ → List ℕ) (fildes : ℕ) (j k : ℕ)
    (rounds : List Round) (v : Visit) (buffer client_buffer junk : List ℕ) (gfr : Request)
    (front : List ℕ) (cs : List (List ℕ)) (live : gfr.live ≡ true) (set : gfr.writer_set ≡ true)
    (plain : Plain (codes " \r\n") gfr.path) (nonempty : gfr.path ≢ [])
    (arrives : v.first ≡ got (request_text gfr.path))
    (short : length (request_text gfr.path) + 1 < u64_mod)
    (clean : Clean (drop (length (request_text gfr.path)) buffer))
    (found : content_get (some gfr.path) ≡ ok (pos fildes))
    (small : length (file_of fildes) < u64_mod)
    (header_room : length (announce (length (file_of fildes))) ≤ j)
    (request_room : length (request_text gfr.path) ≤ k)
    (enough : length (file_of fildes) ≤ length rounds) (moves : Moves rounds)
    (first_room : length (announce (length (file_of fildes)) ++ front) ≤ buffer_size)
    (chunks : Chunks cs) (whole : front ++ concat cs ≡ file_of fildes) where
  file : List ℕ
  file = file_of fildes
