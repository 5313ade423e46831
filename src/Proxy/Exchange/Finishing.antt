-- ===== src/Proxy/Exchange/Finishing.antt =====
-- The run of proj3/simplecached.c and proj3/handle_with_cache.c in which the two take turns: it ends.
use Prim.Native.Nat.{min, zero, suc}
use cs8803_introduction_to_o.Common.{
  ℕ, ◌+◌, ◌^◌, ◌<◌, ◌≤◌, ◌≡◌, refl, ap, ◌++◌, inl, inr, Bool, some, List, arith, ltb, Bool-cases,
  ltb→lt, ltb_false→le, length, take, drop, ℤ, pos, take-append,
}
use cs8803_introduction_to_o.Socket.{Reply, Conn, overwrite}
use cs8803_introduction_to_o.Getfile.Response.{gf_ok}
use cs8803_introduction_to_o.Proxy.Shared.{
  before, emptying, receiving, calling, finished, System, wake_cache, start,
}
use cs8803_introduction_to_o.Proxy.Exchange.{loop_cache, loop_proxy, Steps}
use cs8803_introduction_to_o.Proxy.Exchange.Delivery.{SendsAll, handle_with_cache-delivers}
use cs8803_introduction_to_o.Proxy.Exchange.Runs.{
  at, Runs, Runs-trans, more_to_put, opened, headed, filled, passed_on, fill-length,
}

module _ (send_header : Conn → (status file_len : ℕ) → Conn)
    (send : Reply → Conn → List ℕ → ℤ × Conn) (spurious : Bool) (file : List ℕ) (room : ℕ)
    (small : length file < 2 ^ 31) (roomy : 0 < room) (r : Reply)
    (whole : (c : Conn) (bytes : List ℕ) → (send r c bytes).0 ≡ pos (length bytes)) where
  -- A fill and its send.
  exchanged :
      (b : ℕ) (z : ℤ) (area : List ℕ) (c : Conn)
      → b < length file
      → (j : ℕ) × (area' : List ℕ) × (c' : Conn) × (0 < j)
        × (b + j ≤ length file)
        × Runs send_header send spurious file room
            (at 0 z area (emptying before b) (receiving before b) (pos (length file)) c)
            (loop_proxy send_header send (b + j) (
              at 0 z area'
                (wake_cache (loop_cache (some file) room (b + j)))
                (calling (b + j))
                (pos (length file))
                c'))
  exchanged b z area c less =
      let bytes = take (min (length file) room) (drop b file) in
      let area' = overwrite area bytes in
      let amount = fill-length send_header send spurious file room small b roomy less in
      let taken : (send r c (take (length bytes) area')).0 ≡ pos (length bytes) =
        rw (take-append bytes (drop (length bytes) area)) (whole c bytes) in
      (
        length bytes,
        area',
        (send r c (take (length bytes) area')).1,
        amount.0,
        amount.1,
        Runs-trans send_header send spurious file room
            (filled send_header send spurious file room small b (length file) z (pos (length file))
              area (receiving before b) c refl bytes refl)
            (passed_on send_header send spurious file room small r b (length bytes) z
              (pos (length file)) area' _ c amount.0 taken),
      )

  rounds :
      (fuel b : ℕ) (z : ℤ) (area : List ℕ) (c : Conn)
      → b < length file
      → length file ≤ b + fuel
      → (t : System) × (t.proxy ≡ finished (pos (length file)))
        × Runs send_header send spurious file room
            (at 0 z area (emptying before b) (receiving before b) (pos (length file)) c)
            t
  rounds zero b z area c less enough = absurd (omega arith)
  rounds (suc fuel) b z area c less enough =
      let (j, area', c', some_bytes, bound, run) = exchanged b z area c less in
      elim (Bool-cases (ltb (b + j) (length file))) [
        | inl more ↦
            let (t, done, rest) = rounds fuel (b + j) z area' c' (ltb→lt _ _ more) (omega arith) in
            (
              t,
              done,
              Runs-trans send_header send spurious file room
                  (rw
                    (
                      more_to_put send_header send spurious file room small (b + j)
                          (ltb→lt _ _ more),
                      more,
                    )
                    at run)
                  rest,
            )
        | inr least ↦
            let all : b + j ≡ length file =
              omega (arith, ltb_false→le (b + j) (length file) least) in
            (_, rw least (ap (λ n. finished (pos n)) all), run)
      ]

  -- For a file of at least one and less than 2^31 bytes, a segment with room for one byte or more,
  -- and a client's connection that takes everything: there is a run of the two processes in which
  -- the handler returns the file's length, and the client has been sent the header and the file.
  pub handle_with_cache-can_finish :
      SendsAll send
      → (area : List ℕ) (c : Conn) → 0 < length file
      → (t : System) × Steps send_header send spurious (some file) room (start area c) t
        × (t.proxy ≡ finished (pos (length file)))
        × (t.conn.sent ≡ (send_header c gf_ok (length file)).sent ++ file)
  handle_with_cache-can_finish sends area c some_bytes =
      let (t, done, run) =
        rounds (length file) 0 (pos (length file)) area (send_header c gf_ok (length file))
          some_bytes (omega arith) in
      let whole_run =
        Runs-trans send_header send spurious file room
          (opened send_header send spurious file room small some_bytes area c)
          (Runs-trans send_header send spurious file room
            (headed send_header send spurious file room small some_bytes r area c) run) in
      (
        t,
        whole_run,
        done,
        (handle_with_cache-delivers send_header send sends file c spurious room small area _
            whole_run done).1,
      )
