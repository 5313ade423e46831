-- ===== src/Proxy/Exchange.antt =====
-- How a file crosses a segment of shared memory: `cache_worker` of proj3/simplecached.c from the
-- mapping on, and `handle_with_cache` of proj3/handle_with_cache.c behind `mq_send`, interleaved.
-- A `pread` of the cache's own file is taken not to fail.
pub mod Turns
pub mod Runs
pub mod Finishing
pub mod Stuck
pub mod Unserved
pub mod Sound
pub mod Delivery
use Prim.Native.Nat.{min}
use cs8803_introduction_to_o.Common.{
  ℕ, ◌+◌, ◌-◌, ◌^◌, ◌%◌, ◌≡◌, Bool, true, false, not, Option, none, some, List, [], ◌==◌, ltb,
  if◌then◌else◌, length, take, drop, ℤ, pos, negsuc, is_neg, u32_mod,
}
use cs8803_introduction_to_o.Socket.{Reply, Conn, minus_one, overwrite}
use cs8803_introduction_to_o.Getfile.Response.{gf_ok, gf_file_not_found}
use cs8803_introduction_to_o.Getfile.Handler.{int_eq}
use cs8803_introduction_to_o.Proxy.Shared.{
  Segment, Wait, Turn, turn, holding, wake, Cache, Proxy, System, cache_holds_second,
  proxy_holds_first, proxy_holds_second, wake_cache, wake_proxy, to_int, below, is_zero, destroyed,
  start, before, testing, dozing, asleep, woken, stays, passes, blocked, opening, announcing,
  announced, unmapped, emptying, filling, signalling, measuring, receiving, sending, calling, sent,
  finished, refused, failed_send,
}

-- `file` is what `simplecache_get` finds for the path, and `room` the `size_t` that `pread` is given:
-- the segment's size less that of `shm_data` and one.
module _ (file : Option (List ℕ)) (room : ℕ) where
  abbrev bytes_of : List ℕ
  bytes_of = elim file [ none ↦ [] | some bytes ↦ bytes ]

  abbrev pub cache_length : ℤ
  cache_length = elim file [ none ↦ minus_one | some bytes ↦ to_int (length bytes) ]

  -- The test of the cache's loop.
  abbrev pub loop_cache : ℕ → Cache
  loop_cache b = if below b cache_length then emptying before b else unmapped

  -- The cache's next step, with the answer of `pread`.
  unfoldable pub cache_turn : Cache → (k : ℕ) → System → Option System
  unfolding turn
  cache_turn opening k s =
      some (record s { segment = record s.segment { file_length = pos 0 }; cache = announcing })
  cache_turn announcing k s =
      if proxy_holds_first s.proxy
      then none
      else if is_zero s.segment.file_length
      then some (record s {
        segment = record s.segment { file_length = cache_length; bytes_written = 0 };
        cache = announced;
      })
      else none
  cache_turn announced k s = some (record s {
    cache = if is_neg cache_length then unmapped else loop_cache 0;
    proxy = wake_proxy s.proxy;
  })
  cache_turn (emptying w b) k s =
      elim (turn (not (proxy_holds_second s.proxy)) (s.segment.bytes_written == 0) w) [
        | stays w' ↦ some (record s { cache = emptying w' b })
        | passes ↦ some (record s { cache = filling b })
        | blocked ↦ none
      ]
  cache_turn (filling b) k s =
      let bytes = take (min k room) (drop b bytes_of) in
      some (record s {
        segment = record s.segment {
          area = overwrite s.segment.area bytes;
          bytes_written = length bytes;
        };
        cache = signalling (b + length bytes);
      })
  cache_turn (signalling b) k s =
      some (record s { cache = loop_cache b; proxy = wake_proxy s.proxy })
  cache_turn unmapped k s = none

-- The server library of proj3 is not part of it.
module _ (send_header : Conn → (status file_len : ℕ) → Conn)
    (send : Reply → Conn → List ℕ → ℤ × Conn) where
  -- The test of the handler's loop; behind the loop the segment is given back.
  abbrev pub loop_proxy : ℕ → System → System
  loop_proxy n s =
      if below n s.expected
      then record s { proxy = receiving before n }
      else record s { segment = destroyed s.segment; proxy = finished (pos n) }

  -- What the handler does once the length is there.
  abbrev pub measured : ℤ → System → System
  measured (negsuc m) s = record s {
    segment = destroyed s.segment;
    cache = wake_cache s.cache;
    proxy = refused;
    expected = negsuc m;
    conn = send_header s.conn gf_file_not_found 0;
  }
  measured (pos len) s = loop_proxy 0 (record s {
    cache = wake_cache s.cache;
    expected = pos len;
    conn = send_header s.conn gf_ok len;
  })

  -- The handler's next step, with the answer of the client's connection.
  unfoldable pub proxy_turn : Proxy → (r : Reply) → System → Option System
  unfolding turn
  proxy_turn (measuring w) r s =
      elim (turn (not (cache_holds_second s.cache)) (not (is_zero s.segment.file_length)) w) [
        | stays w' ↦ some (record s { proxy = measuring w' })
        | passes ↦ some (measured s.segment.file_length s)
        | blocked ↦ none
      ]
  proxy_turn (receiving w n) r s = elim (turn true (not (s.segment.bytes_written == 0)) w) [
    | stays w' ↦ some (record s { proxy = receiving w' n })
    | passes ↦ some (record s { proxy = sending n })
    | blocked ↦ none
  ]
  proxy_turn (sending n) r s =
      let read_len = s.segment.bytes_written in
      let (write_len, c) = send r s.conn (take read_len s.segment.area) in
      some (record s {
        proxy = if int_eq write_len (pos read_len) then sent n read_len else failed_send;
        conn = c;
      })
  proxy_turn (sent n k) r s =
      some (record s { segment = record s.segment { bytes_written = 0 }; proxy = calling (n + k) })
  proxy_turn (calling n) r s = some (loop_proxy n (record s { cache = wake_cache s.cache }))
  proxy_turn (finished z) r s = none
  proxy_turn refused r s = none
  proxy_turn failed_send r s = none

  -- One step of the two processes. A sleeper may wake without a signal if `spurious` says so.
  pub data Step (spurious : Bool) (file : Option (List ℕ)) (room : ℕ) (s : System)
      : System → Type 0 where
    cache_step :
        (k : ℕ) {t : System}
        → cache_turn file room s.cache k s ≡ some t
        → Step spurious file room s t
    proxy_step :
        (r : Reply) {t : System} → proxy_turn s.proxy r s ≡ some t → Step spurious file room s t
    cache_wakes :
        spurious ≡ true → Step spurious file room s (record s { cache = wake_cache s.cache })
    proxy_wakes :
        spurious ≡ true → Step spurious file room s (record s { proxy = wake_proxy s.proxy })

  pub data Steps (spurious : Bool) (file : Option (List ℕ)) (room : ℕ) (s : System)
      : System → Type 0 where
    here : Steps spurious file room s s
    next :
        {t u : System}
        → Steps spurious file room s t
        → Step spurious file room t u
        → Steps spurious file room s u
