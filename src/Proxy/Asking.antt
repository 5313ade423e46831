-- ===== src/Proxy/Asking.antt =====
-- What `handle_with_cache` of proj3/handle_with_cache.c does between the choice of a segment and the
-- wait for the file's length: it creates the segment, waits for the cache's message queue and sends its
-- request. The 1024 bytes that `mq_send` reads from a variable of 516 are not modelled.
use cs8803_introduction_to_o.Common.{
  ℕ, ◌≡◌, Bool, true, false, ◌&&◌, Option, none, some, List, [], ◌∷◌, if◌then◌else◌, Outcome, ok,
  fault, starved, ◌>>=◌, ℤ, pos,
}
use cs8803_introduction_to_o.CString.{fits}
use cs8803_introduction_to_o.Proxy.Shared.{Segment}
use cs8803_introduction_to_o.Proxy.Requests.{Message}

-- `create_shm_channel`, with the answers of `shm_open` and `mmap`. They are not looked at: a mapping that
-- failed is written to.
create_shm_channel : (shm_open_ok mmap_ok : Bool) → (area : List ℕ) → Outcome Segment
create_shm_channel shm_open_ok mmap_ok area =
    if shm_open_ok && mmap_ok
    then ok (record { bytes_written = 0; file_length = pos 0; area = area })
    else fault

-- The loop around `mq_open`, with its answers.
open_queue : List Bool → Outcome (Unit {0})
open_queue [] = starved
open_queue (true ∷ answers) = ok tt
open_queue (false ∷ answers) = open_queue answers

-- The message, which is lost if `mq_send` fails.
send_request :
    (mq_send_ok : Bool) → (path fldes : List ℕ) → (segment_size : ℤ) → Outcome (Option Message)
send_request mq_send_ok path fldes segment_size = do
  path' ← fits 256 path
  fldes' ← fits 256 fldes
  let data_sent : Message = record { segment_size = segment_size; path = path'; fldes = fldes' }
  ok (if mq_send_ok then some data_sent else none)

-- The answers of the calls.
pub record Calls : Type 0 where
  pub shm_open_ok : Bool
  pub mmap_ok : Bool
  pub mq_opens : List Bool
  pub mq_send_ok : Bool

pub ask_cache :
    Calls → (area path fldes : List ℕ) → (segment_size : ℤ) → Outcome (Segment × Option Message)
unfolding create_shm_channel open_queue send_request
ask_cache calls area path fldes segment_size = do
  mem ← create_shm_channel calls.shm_open_ok calls.mmap_ok area
  opened ← open_queue calls.mq_opens
  sent ← send_request calls.mq_send_ok path fldes segment_size
  ok (mem, sent)

-- One of the answers is a success.
abbrev SomeTrue : List Bool → Type 0
SomeTrue [] = ⊥
SomeTrue (true ∷ answers) = Unit {0}
SomeTrue (false ∷ answers) = SomeTrue answers

-- The calls succeed, `mq_open` after some trials.
pub record Succeed (calls : Calls) : Type 0 where
  pub opened : calls.shm_open_ok ≡ true
  pub mapped : calls.mmap_ok ≡ true
  pub queue_there : SomeTrue calls.mq_opens
  pub accepted : calls.mq_send_ok ≡ true
