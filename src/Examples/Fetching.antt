-- ===== src/Examples/Fetching.antt =====
-- The proxy of proj3 with libcurl, its segments, and the requests of its cache.
use cs8803_introduction_to_o.CString.{codes}
use cs8803_introduction_to_o.Common.{
  Option, false, none, ℕ, ◌≡◌, ◌↔◌, refl, true, some, List, [], ◌∷◌, ◌++◌, ok, ℤ, pos, arith,
}
use cs8803_introduction_to_o.Proxy.Asking.{Calls}
use cs8803_introduction_to_o.Proxy.Shared.{Segment}
use cs8803_introduction_to_o.Socket.{Reply, failed, Conn}
use cs8803_introduction_to_o.Proxy.Curl.{Memory, Download, Handled, handle_with_curl}
use cs8803_introduction_to_o.Proxy.Curl.Collecting.{Callback, deliver}
use cs8803_introduction_to_o.Proxy.Curl.Sending.{SendsFront, Fetches, handle_with_curl-delivers}
use cs8803_introduction_to_o.Proxy.Segments
use cs8803_introduction_to_o.Proxy.Requests
use cs8803_introduction_to_o.Proxy.Segments.{
  Pool, acquire, waits, release, Handlers, acquires, init_proxy,
}
use cs8803_introduction_to_o.Proxy.Segments.Owning.{count, segment-exclusive, acquire-waits}
use cs8803_introduction_to_o.Proxy.Requests.{Message, Daemon, receive}
use cs8803_introduction_to_o.Proxy.Requests.Main.{System}

abbrev curl_header : Conn → (status file_len : ℕ) → ℤ × Conn
curl_header c status file_len = (pos 2, record c { sent = c.sent ++ status ∷ file_len ∷ [] })

-- A connection that takes one byte at a time.
abbrev sends_one : Reply → Conn → List ℕ → ℤ × Conn
sends_one r c [] = (pos 0, c)
sends_one r c (b ∷ bs) = (pos 1, record c { sent = c.sent ++ b ∷ [] })

sends_one-SendsFront : SendsFront sends_one
sends_one-SendsFront r c [] h = absurd (omega arith)
sends_one-SendsFront r c (b ∷ bs) h = (1, omega arith, omega arith, refl, refl)

abbrev site : List ℕ → List ℕ
site url = 1 ∷ 2 ∷ 3 ∷ []

abbrev curl : List ℕ → Callback → Memory → Download
curl url callback m = record {
  performed = true;
  chunk = deliver callback ((1 ∷ 2 ∷ []) ∷ (3 ∷ []) ∷ []) m;
  size_download = some 3;
}

curl-Fetches : Fetches curl site
curl-Fetches url callback m performed = ((1 ∷ 2 ∷ []) ∷ (3 ∷ []) ∷ [], refl, refl, refl)

abbrev browser : Conn
browser = record { sent = []; is_open = true }

handle_with_curl-delivers_example :
    (h : Handled) × (handle_with_curl curl_header sends_one curl
        (failed ∷ failed ∷ failed ∷ [])
        0
        (47 ∷ [])
        (97 ∷ [])
        browser
      ≡ ok h)
    × (h.value ≡ pos 3)
    × (h.conn.sent ≡ 200 ∷ 3 ∷ 1 ∷ 2 ∷ 3 ∷ [])
    × (h.cleaned_up ≡ true)
handle_with_curl-delivers_example =
    handle_with_curl-delivers curl_header sends_one sends_one-SendsFront curl site curl-Fetches
      (failed ∷ failed ∷ failed ∷ []) 0 (47 ∷ []) (97 ∷ []) browser (omega arith) refl (omega arith)
      (omega arith)

-- Two segments, and two handlers that have one each.
abbrev both_held : Handlers
both_held = record {
  pool = record { queue = []; size = 0; max_size = 2 };
  held = 1 ∷ 0 ∷ [];
  lost = [];
}

two_acquired : Segments.Steps 2 both_held
unfolding acquire init_proxy
two_acquired =
    Segments.next
      (Segments.next Segments.here
        (acquires 0 (record { queue = 1 ∷ []; size = 1; max_size = 2 }) refl))
      (acquires 1 (record { queue = []; size = 0; max_size = 2 }) refl)

segment-exclusive_example : (count 0 [] ≡ 0) × (count 0 (1 ∷ []) ≡ 0) × (count 0 [] ≡ 0)
segment-exclusive_example = segment-exclusive 2 0 (1 ∷ []) [] two_acquired refl

acquire-waits_example : (acquire both_held.pool ≡ waits) ↔ ◌≡◌ {A = ℕ} 2 2
acquire-waits_example = acquire-waits 2 two_acquired

-- Two requests, before a worker takes one.
abbrev message : ℕ → Message
message n = record { segment_size = pos n; path = n ∷ []; fldes = [] }

abbrev no_message : ℕ → Message
no_message a = message 0

abbrev second_taken : Daemon
second_taken = record {
  memory =
      (receive 5 (message 2) (
        receive 5 (message 1) (record {
          memory = no_message;
          queue = [];
          steq_size = 0;
          taken = [];
          received = [];
        }))).memory;
  queue = 5 ∷ [];
  steq_size = 1;
  taken = 5 ∷ [];
  received = message 2 ∷ message 1 ∷ [];
}

-- The program with the option -t 2, after an earlier run that left its queue.
abbrev two_threads : List (ℕ × List ℕ)
two_threads = (b't', codes "2") ∷ []

abbrev left_over : System
left_over = record { msgq = true; cache = none }

-- The queue is there at the second trial.
abbrev calls : Calls
calls = record {
  shm_open_ok = true;
  mmap_ok = true;
  mq_opens = false ∷ true ∷ [];
  mq_send_ok = true;
}

-- The segment has its name from the second trial of the cache on.
abbrev mapped_segment : Segment
mapped_segment = record { bytes_written = 0; file_length = pos 0; area = [] }

abbrev first_trial : List ℕ → Option Segment
first_trial name = none

abbrev second_trial : List ℕ → Option Segment
second_trial name = some mapped_segment

abbrev holds_hello : List ℕ → Option (List ℕ)
holds_hello path = some (codes "hello")
