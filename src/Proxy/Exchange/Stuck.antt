-- ===== src/Proxy/Exchange/Stuck.antt =====
-- A run of proj3/simplecached.c and proj3/handle_with_cache.c that never ends: the cache fills and
-- signals between the proxy's test and its sleep, since the two hold different mutexes there.
use Prim.Native.Nat.{min}
use cs8803_introduction_to_o.Common.{
  none_not, ℕ, ◌+◌, ◌^◌, ◌<◌, ◌≡◌, refl, inl, inr, false, some, List, arith, ◌==◌, ltb, Bool-cases,
  ltb→lt, ne→==, ltb_false→le, length, take, drop, ℤ, pos,
}
use cs8803_introduction_to_o.Socket.{Reply, Conn, overwrite}
use cs8803_introduction_to_o.Getfile.Response.{gf_ok}
use cs8803_introduction_to_o.Proxy.Shared.{
  before, testing, dozing, asleep, turn, Cache, emptying, unmapped, receiving, System, start,
}
use cs8803_introduction_to_o.Proxy.Exchange.{
  loop_cache, cache_turn, proxy_turn, Step, cache_step, proxy_step, cache_wakes, proxy_wakes, Steps,
  here, next,
}
use cs8803_introduction_to_o.Proxy.Exchange.Runs.{
  at, Runs, Runs-trans, by_cache, more_to_put, all_put, opened, headed, filled, fill-length,
}

module _ (send_header : Conn → (status file_len : ℕ) → Conn)
    (send : Reply → Conn → List ℕ → ℤ × Conn) (file : List ℕ) (room : ℕ) where
  -- Without a wake-up from outside, nothing happens any more.
  abbrev pub IsStuck : System → Type 0
  IsStuck t = (u : System) → Step send_header send false (some file) room t u → ⊥

  -- The cache's worker has nothing to do, or sleeps.
  data Rests : Cache → Type 0 where
    is_done : Rests unmapped
    is_asleep : (b : ℕ) → Rests (emptying asleep b)

  cache-Rests :
      {x : Cache}
      → Rests x
      → (k : ℕ) (s : System) {t : System} → cache_turn (some file) room x k s ≡ some t
      → ⊥
  unfolding cache_turn turn
  cache-Rests is_done k s p = none_not p
  cache-Rests (is_asleep b) k s p = none_not p

  proxy_rests :
      (n : ℕ) (r : Reply) (s : System) {t : System}
      → proxy_turn send_header send (receiving asleep n) r s ≡ some t
      → ⊥
  unfolding proxy_turn turn
  proxy_rests n r s p = none_not p

  resting-IsStuck :
      (n j : ℕ) (z e : ℤ) (area : List ℕ) (x : Cache) (c : Conn)
      → Rests x
      → IsStuck (at j z area x (receiving asleep n) e c)
  resting-IsStuck n j z e area x c rests u (cache_step k p) = cache-Rests rests k _ p
  resting-IsStuck n j z e area x c rests u (proxy_step r p) = proxy_rests n r _ p
  resting-IsStuck n j z e area x c rests u (cache_wakes p) = cc
  resting-IsStuck n j z e area x c rests u (proxy_wakes p) = cc

  module _ (small : length file < 2 ^ 31) (roomy : 0 < room) (some_bytes : 0 < length file)
      (r : Reply) where
    -- Behind its fill, the cache comes to rest.
    comes_to_rest :
        (n j b : ℕ) (z e : ℤ) (area : List ℕ) (c : Conn)
        → 0 < j
        → (x : Cache) × Rests x
          × Runs send_header send false file room
              (at j z area (loop_cache (some file) room b) (receiving asleep n) e c)
              (at j z area x (receiving asleep n) e c)
    unfolding cache_turn turn
    comes_to_rest n j b z e area c filled_up = elim (Bool-cases (ltb b (length file))) [
      | inl more ↦
          let s = at j z area (emptying before b) (receiving asleep n) e c in
          let full : (j == 0) ≡ false = ne→== j 0 (omega arith) in
          let first : Runs send_header send false file room s
              (record s { cache = emptying testing b }) =
            by_cache send_header send false file room 0 refl in
          let second : Runs send_header send false file room
              (record s { cache = emptying testing b }) (record s { cache = emptying dozing b }) =
            by_cache send_header send false file room 0 (rw (cache_turn, turn, full) refl) in
          let third : Runs send_header send false file room (record s { cache = emptying dozing b })
              (record s { cache = emptying asleep b }) =
            by_cache send_header send false file room 0 refl in
          (
            emptying asleep b,
            is_asleep b,
            rw (more_to_put send_header send false file room small b (ltb→lt _ _ more)) (
                Runs-trans send_header send false file room first
                  (Runs-trans send_header send false file room second third)),
          )
      | inr least ↦ (
        unmapped,
        is_done,
        rw (all_put send_header send false file room small b (ltb_false→le _ _ least)) here,
      )
    ]

    dozes :
        (j : ℕ) (z e : ℤ) (area : List ℕ) (x : Cache) (c : Conn)
        → Runs send_header send false file room
            (at 0 z area x (receiving before 0) e c)
            (at 0 z area x (receiving dozing 0) e c)
    unfolding proxy_turn turn
    dozes j z e area x c = next (next here (proxy_step r refl)) (proxy_step r refl)

    sleeps :
        (j : ℕ) (z e : ℤ) (area : List ℕ) (x : Cache) (c : Conn)
        → Runs send_header send false file room
            (at j z area x (receiving dozing 0) e c)
            (at j z area x (receiving asleep 0) e c)
    unfolding proxy_turn turn
    sleeps j z e area x c = next here (proxy_step r refl)

    -- For every file of at least one and less than 2^31 bytes and a segment with room for one byte
    -- or more, there is a run without spurious wake-ups in which the handler sleeps in front of its
    -- first chunk, though the segment holds bytes, and from which no further step of either process
    -- is possible.
    pub handle_with_cache-can_hang :
        (area : List ℕ) (c : Conn)
        → (t : System) × Steps send_header send false (some file) room (start area c) t
          × (t.proxy ≡ receiving asleep 0)
          × (0 < t.segment.bytes_written)
          × IsStuck t
    handle_with_cache-can_hang area c =
        let z = pos (length file) in
        let c' = send_header c gf_ok (length file) in
        let bytes = take (min (length file) room) (drop 0 file) in
        let amount = fill-length send_header send false file room small 0 roomy some_bytes in
        let (x, rests, last) =
          comes_to_rest 0 (length bytes) (0 + length bytes) z z (overwrite area bytes) c'
            amount.0 in
        let front =
          Runs-trans send_header send false file room
            (opened send_header send false file room small some_bytes area c)
            (headed send_header send false file room small some_bytes r area c) in
        let fill =
          Runs-trans send_header send false file room (dozes 0 z z area (emptying before 0) c') (
            filled send_header send false file room small 0 (length file) z z area
              (receiving dozing 0) c' refl bytes refl) in
        let sleep =
          Runs-trans send_header send false file room
            (sleeps (length bytes) z z (overwrite area bytes)
              (loop_cache (some file) room (0 + length bytes)) c')
            last in
        (
          _,
          Runs-trans send_header send false file room front
              (Runs-trans send_header send false file room fill sleep),
          refl,
          amount.0,
          resting-IsStuck 0 (length bytes) z z (overwrite area bytes) x c' rests,
        )
