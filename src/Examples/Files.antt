-- ===== src/Examples/Files.antt =====
-- The client library and the server, on a file with the bytes "hello".
use cs8803_introduction_to_o.Common.{
  ℕ, ◌≡◌, refl, Bool, true, false, ltb, ◌&&◌, Option, some, List, [], ◌∷◌, ◌++◌, arith, Outcome, ok,
  fault, ℤ, pos,
}
use cs8803_introduction_to_o.CString.{codes, fits}
use cs8803_introduction_to_o.Socket.{Reply, Recv, moved, got, broken, Conn, minus_one}
use cs8803_introduction_to_o.Getfile.Response.Header.{announce}
use cs8803_introduction_to_o.Getfile.Handler.{Round, handler_get}
use cs8803_introduction_to_o.Getfile.Handler.Failure.{AllOrPart, handler_get_safe}
use cs8803_introduction_to_o.Getfile.Client.{
  Request, gf_error, uninitialised, connected, finish, cleanup, get_status, body, perform, receive,
  message,
}
use cs8803_introduction_to_o.Getfile.Client.Body.{body_cut_short}
use cs8803_introduction_to_o.Getfile.Client.Transfer.{request_text, working}
use cs8803_introduction_to_o.Getfile.Client.Lifetime.{get_status-perform}
use cs8803_introduction_to_o.Getfile.Serve.{Visit, serve_one}
use cs8803_introduction_to_o.Getfile.Serve.Stale.{Text, serve_one-stale}
use cs8803_introduction_to_o.Getfile.Download.{defaults, created, download_one}
use cs8803_introduction_to_o.Getfile.Download.Never.{NeverOk, download_one-NeverOk}

abbrev file : List ℕ
file = codes "hello"

abbrev full_round : Round
full_round = record { read = moved 4096; write = moved 4096 }

abbrev rounds : List Round
rounds = full_round ∷ full_round ∷ full_round ∷ full_round ∷ full_round ∷ []

-- A table with every key, and one with none.
abbrev found : Option (List ℕ) → Outcome ℤ
found key = ok (pos 3)

abbrev missing : Option (List ℕ) → Outcome ℤ
missing key = ok minus_one

abbrev path : List ℕ
path = codes "/a"

-- The second `write` is short.
abbrev short_rounds : List Round
short_rounds =
    record { read = moved 2; write = moved 2 }
    ∷ record { read = moved 2; write = moved 1 }
    ∷ full_round
    ∷ full_round
    ∷ full_round
    ∷ []

handler_get_safe_example :
    (r : ℤ × Conn) × (head : List ℕ) × (tail : List ℕ) × (handler_get found
        (λ fildes. file)
        (moved 4096)
        short_rounds
        connected
        (some path)
      ≡ ok r)
    × (head ++ tail ≡ announce 5)
    × AllOrPart (record { sent = head; is_open = true }) file 5 r
handler_get_safe_example =
    handler_get_safe found (λ fildes. file) (moved 4096) short_rounds connected (some path) 3 refl
      refl (omega arith) (omega arith)

-- A request that was set up for the path.
abbrev request : Request
request = record {
  live = true;
  server = codes "localhost";
  path = path;
  port = 8888;
  status = gf_error;
  status_text = uninitialised;
  bytes_received = 0;
  file_length = 0;
  header_argument = false;
  header_set = false;
  writer_set = true;
  writer = [];
  headers = [];
}

body_cut_short_example :
    body (got (codes "he") ∷ got [] ∷ []) [] 0 (record request { file_length = 5 }) connected
    ≡ ok (record {
      result = minus_one;
      request = record request {
        live = false;
        writer = codes "he";
        bytes_received = 2;
        file_length = 5;
      };
      conn = record { sent = []; is_open = false };
    })
unfolding cs8803_introduction_to_o.Socket.close
body_cut_short_example =
    body_cut_short (codes "he" ∷ []) [] [] (record request { file_length = 5 }) connected refl refl
      (omega arith, omega arith, tt) (omega arith)

-- The server closes without an answer.
perform_closed :
    perform (working 4096) (got [] ∷ []) [] [] request
    ≡ ok (record {
      result = pos 0;
      request = record request { live = false };
      conn = record { sent = request_text path; is_open = false };
    })
unfolding perform receive finish cleanup message fits cs8803_introduction_to_o.Socket.write
    cs8803_introduction_to_o.Socket.close
perform_closed = refl

get_status-perform_example : get_status (record request { live = false }) ≡ fault
get_status-perform_example =
    get_status-perform (working 4096) (got [] ∷ []) [] [] request refl perform_closed

abbrev visit : Visit
visit = record {
  accepted = true;
  first = got (request_text path);
  second = broken;
  refusal = moved 4096;
}

abbrev serving : Conn → Option (List ℕ) → Outcome (ℤ × Conn)
serving = handler_get found (λ fildes. file) (moved 4096) rounds

-- Is no byte a NUL?
abbrev no_nul : List ℕ → Bool
no_nul [] = true
no_nul (c ∷ t) = ltb 0 c && no_nul t

no_nul-Text : (t : List ℕ) → no_nul t ≡ true → Text t
no_nul-Text [] e = tt
no_nul-Text (c ∷ t) e = (ground arith, no_nul-Text t (ground arith))

serve_one-stale_example :
    serve_one serving visit connected (request_text (codes "/a-longer-path")) ≡ fault
serve_one-stale_example =
    serve_one-stale serving visit connected (request_text path)
      (request_text (codes "/a-longer-path")) 102 (codes "er-path\r\n\r\n")
      (no_nul-Text (request_text path) refl) refl (omega arith) refl

download_one-NeverOk_example : NeverOk (
    download_one defaults 0
      (record { paths = path ∷ []; unique = 1; counter = 0 })
      (record {
        mkdir = λ d. created;
        fopen_ok = true;
        memory = request;
        network = working 4096;
        receives = got [] ∷ [];
        buffer = [];
        junk = [];
      }))
download_one-NeverOk_example =
    download_one-NeverOk defaults 0 (record { paths = path ∷ []; unique = 1; counter = 0 })
      (record {
        mkdir = λ d. created;
        fopen_ok = true;
        memory = request;
        network = working 4096;
        receives = got [] ∷ [];
        buffer = [];
        junk = [];
      })
