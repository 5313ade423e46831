-- ===== src/Proxy/Shared.antt =====
-- The state of a hand-over: `shm_data` of proj3/simplecached.c and proj3/handle_with_cache.c, and where
-- `cache_worker` and `handle_with_cache` are. The two declare the mutexes of `shm_data` in different
-- orders: the first mutex in memory is `file_len_mutex` to the cache and `data_mutex` to the proxy, and
-- the second is the other way round.
use cs8803_introduction_to_o.Common.{
  ℕ, ◌-◌, ◌^◌, ◌%◌, Bool, true, false, List, ◌==◌, ltb, if◌then◌else◌, ℤ, pos, negsuc, u32_mod,
}
use cs8803_introduction_to_o.Socket.{Conn}

-- `shm_data`, and the bytes behind it.
pub record Segment : Type 0 where
  pub bytes_written : ℕ
  pub file_length : ℤ
  pub area : List ℕ

-- A loop around `pthread_cond_wait`: in front of the lock, at the test, on the way to sleep, asleep,
-- and woken, which wants the lock again. The mutex is held at the test and on the way to sleep.
pub data Wait : Type 0 where
  before testing dozing asleep woken : Wait

pub data Turn : Type 0 where
  stays : Wait → Turn
  passes blocked : Turn

unfoldable pub turn : (free met : Bool) → Wait → Turn
turn free met before = if free then stays testing else blocked
turn free met testing = if met then passes else stays dozing
turn free met dozing = stays asleep
turn free met asleep = blocked
turn free met woken = if free then stays testing else blocked

abbrev pub holding : Wait → Bool
holding testing = true
holding dozing = true
holding _ = false

abbrev pub wake : Wait → Wait
wake asleep = woken
wake before = before
wake testing = testing
wake dozing = dozing
wake woken = woken

-- Where the cache's worker is; a number is the bytes that it has put into the segment. The lock from
-- `filling` on is the second.
pub data Cache : Type 0 where
  opening announcing announced unmapped : Cache
  emptying : Wait → ℕ → Cache
  filling signalling : ℕ → Cache

-- Where the proxy's handler is; a number is `bytes_transferred`. `sent` has sent a chunk and not yet
-- cleared `bytes_written`; `finished` has returned, `refused` too with what `gfs_sendheader` gave, and
-- `failed_send` behind a short send, with the mutex.
pub data Proxy : Type 0 where
  measuring : Wait → Proxy
  receiving : Wait → ℕ → Proxy
  sending calling : ℕ → Proxy
  sent : ℕ → ℕ → Proxy
  finished : ℤ → Proxy
  refused failed_send : Proxy

-- `expected` is the handler's `file_len`.
pub record System : Type 0 where
  pub segment : Segment
  pub cache : Cache
  pub proxy : Proxy
  pub expected : ℤ
  pub conn : Conn

-- Who holds the first and the second mutex.
abbrev pub cache_holds_second : Cache → Bool
cache_holds_second (emptying w b) = holding w
cache_holds_second (filling b) = true
cache_holds_second (signalling b) = true
cache_holds_second _ = false

abbrev pub proxy_holds_first : Proxy → Bool
proxy_holds_first (receiving w n) = holding w
proxy_holds_first (sending n) = true
proxy_holds_first (sent n k) = true
proxy_holds_first failed_send = true
proxy_holds_first _ = false

abbrev pub proxy_holds_second : Proxy → Bool
proxy_holds_second (measuring w) = holding w
proxy_holds_second _ = false

-- `pthread_cond_broadcast` or `_signal` on the condition that the other process waits for.
abbrev pub wake_cache : Cache → Cache
wake_cache opening = opening
wake_cache announcing = announcing
wake_cache announced = announced
wake_cache unmapped = unmapped
wake_cache (emptying w b) = emptying (wake w) b
wake_cache (filling b) = filling b
wake_cache (signalling b) = signalling b

abbrev pub wake_proxy : Proxy → Proxy
wake_proxy (measuring w) = measuring (wake w)
wake_proxy (receiving w n) = receiving (wake w) n
wake_proxy (sending n) = sending n
wake_proxy (calling n) = calling n
wake_proxy (sent n k) = sent n k
wake_proxy (finished z) = finished z
wake_proxy refused = refused
wake_proxy failed_send = failed_send

-- `lseek` gives an `off_t`, which `file_len` keeps as an `int`.
abbrev pub to_int : ℕ → ℤ
to_int n = let m = n % u32_mod in if ltb m (2 ^ 31) then pos m else negsuc (u32_mod - 1 - m)

-- `n < len`
abbrev pub below : ℕ → ℤ → Bool
below n (pos len) = ltb n len
below n (negsuc len) = false

abbrev pub is_zero : ℤ → Bool
is_zero (pos n) = n == 0
is_zero (negsuc n) = false

-- What `destroy_shm_seg` leaves in the segment.
abbrev pub destroyed : Segment → Segment
destroyed m = record m { file_length = pos 0; bytes_written = 0 }

-- The segment as `create_shm_channel` leaves it, and both processes in front of their first step.
abbrev pub start : (area : List ℕ) → Conn → System
start area c = record {
  segment = record { bytes_written = 0; file_length = pos 0; area = area };
  cache = opening;
  proxy = measuring before;
  expected = pos 0;
  conn = c;
}
