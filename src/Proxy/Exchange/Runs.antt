-- ===== src/Proxy/Exchange/Runs.antt =====
-- Pieces of runs of proj3/simplecached.c and proj3/handle_with_cache.c on a file that is not empty:
-- opening, the header, one fill and one send.
use Prim.Native.Nat.{min}
use cs8803_introduction_to_o.Common.{
  ℕ, ◌+◌, ◌^◌, ◌<◌, ◌≤◌, ◌≡◌, refl, Bool, false, some, List, arith, ◌==◌, lt→ltb, le→ltb, length,
  length-take, length-drop, take, drop, ℤ, pos, ne→==, eq→==,
}
use cs8803_introduction_to_o.Socket.{Reply, Conn, overwrite}
use cs8803_introduction_to_o.Getfile.Response.{gf_ok}
use cs8803_introduction_to_o.Proxy.Exchange.Turns.{cache_length-small}
use cs8803_introduction_to_o.Proxy.Shared.{
  before, testing, turn, Cache, unmapped, emptying, filling, signalling, Proxy, measuring,
  receiving, sending, calling, sent, System, proxy_holds_second, wake_cache, wake_proxy, start,
}
use cs8803_introduction_to_o.Proxy.Exchange.{
  loop_cache, cache_turn, loop_proxy, proxy_turn, cache_step, proxy_step, Steps, here, next,
}

abbrev pub at : (j : ℕ) (z : ℤ) (area : List ℕ) → Cache → Proxy → ℤ → Conn → System
at j z area x y e c = record {
  segment = record { bytes_written = j; file_length = z; area = area };
  cache = x;
  proxy = y;
  expected = e;
  conn = c;
}

module _ (send_header : Conn → (status file_len : ℕ) → Conn)
    (send : Reply → Conn → List ℕ → ℤ × Conn) (spurious : Bool) (file : List ℕ) (room : ℕ) where
  abbrev pub Runs : System → System → Type 0
  Runs = Steps send_header send spurious (some file) room

  pub Runs-trans : {s t u : System} → Runs s t → Runs t u → Runs s u
  Runs-trans run here = run
  Runs-trans run (next more step) = next (Runs-trans run more) step

  pub by_cache :
      (k : ℕ) {s t : System} → cache_turn (some file) room s.cache k s ≡ some t → Runs s t
  by_cache k p = next here (cache_step k p)

  pub by_proxy :
      (r : Reply) {s t : System} → proxy_turn send_header send s.proxy r s ≡ some t → Runs s t
  by_proxy r p = next here (proxy_step r p)

  module _ (small : length file < 2 ^ 31) where
    pub more_to_put : (b : ℕ) → b < length file → loop_cache (some file) room b ≡ emptying before b
    more_to_put b less = rw (cache_length-small file room small, lt→ltb b (length file) less) refl

    pub all_put : (b : ℕ) → length file ≤ b → loop_cache (some file) room b ≡ unmapped
    all_put b least = rw (cache_length-small file room small, le→ltb b (length file) least) refl

    pub opened :
        (some_bytes : 0 < length file) (area : List ℕ) (c : Conn)
        → Runs
            (start area c)
            (at 0 (pos (length file)) area (emptying before 0) (measuring before) (pos 0) c)
    unfolding cache_turn
    opened some_bytes area c = next (next (next here (cache_step 0 refl)) (cache_step 0 refl)) (
        cache_step 0
          (rw (cache_length-small file room small, lt→ltb 0 (length file) some_bytes) refl))

    pub headed :
        (some_bytes : 0 < length file) (r : Reply) (area : List ℕ) (c : Conn)
        → Runs (at 0 (pos (length file)) area (emptying before 0) (measuring before) (pos 0) c) (
            at 0
              (pos (length file))
              area
              (emptying before 0)
              (receiving before 0)
              (pos (length file))
              (send_header c gf_ok (length file)))
    unfolding proxy_turn turn
    headed some_bytes r area c = next (next here (proxy_step r refl)) (
        proxy_step r (
          rw
            (
              proxy_turn,
              turn,
              ne→== (length file) 0 (omega arith),
              lt→ltb 0 (length file) some_bytes,
            )
            refl))

    pub filled :
        (b k : ℕ) (z e : ℤ) (area : List ℕ) (y : Proxy) (c : Conn)
        → proxy_holds_second y ≡ false
        → (bytes : List ℕ) → take (min k room) (drop b file) ≡ bytes
        → Runs (at 0 z area (emptying before b) y e c) (
            at
              (length bytes)
              z
              (overwrite area bytes)
              (loop_cache (some file) room (b + length bytes))
              (wake_proxy y)
              e
              c)
    unfolding cache_turn turn
    filled b k z e area y c free bytes read =
        let s = at 0 z area (emptying before b) y e c in
        let first : Runs s (record s { cache = emptying testing b }) = by_cache k (rw free refl) in
        let second : Runs (record s { cache = emptying testing b })
            (record s { cache = filling b }) =
          by_cache k refl in
        let third : Runs (record s { cache = filling b })
            (at (length bytes) z (overwrite area bytes) (signalling (b + length bytes)) y e c) =
          by_cache k (rw read refl) in
        Runs-trans first (Runs-trans second (Runs-trans third (by_cache k refl)))

    -- One send of `handle_with_cache`, which the connection takes whole.
    pub passed_on :
        (r : Reply) (n j : ℕ) (z e : ℤ) (area : List ℕ) (x : Cache) (c : Conn)
        → 0 < j
        → (send r c (take j area)).0 ≡ pos j
        → Runs (at j z area x (receiving before n) e c) (
            loop_proxy send_header send
              (n + j)
              (at 0 z area (wake_cache x) (calling (n + j)) e (send r c (take j area)).1))
    unfolding proxy_turn turn
    passed_on r n j z e area x c some_bytes all =
        let s = at j z area x (receiving before n) e c in
        let full : (j == 0) ≡ false = ne→== j 0 (omega arith) in
        let first : Runs s (record s { proxy = receiving testing n }) = by_proxy r refl in
        let second : Runs (record s { proxy = receiving testing n })
            (record s { proxy = sending n }) =
          by_proxy r (rw (proxy_turn, turn, full) refl) in
        let third : Runs (record s { proxy = sending n })
            (record s { proxy = sent n j; conn = (send r c (take j area)).1 }) =
          by_proxy r (rw (all, eq→== j j refl) refl) in
        Runs-trans first
          (Runs-trans second (Runs-trans third (next (by_proxy r refl) (proxy_step r refl))))

    -- How much one fill brings.
    pub fill-length :
        (b : ℕ)
        → 0 < room
        → b < length file
        → (0 < length (take (min (length file) room) (drop b file)))
          × (b + length (take (min (length file) room) (drop b file)) ≤ length file)
    fill-length b roomy less =
        rw (length-take (min (length file) room) (drop b file), length-drop b file)
          (omega arith, omega arith)
