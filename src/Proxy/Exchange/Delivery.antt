-- ===== src/Proxy/Exchange/Delivery.antt =====
-- What the client of the proxy is sent: the steps of proj3/handle_with_cache.c, and every interleaving
-- of the two processes.
use mathlib.Core.List.{append_assoc, append-nil}
use cs8803_introduction_to_o.Common.{
  some_inj, true_not_false, none_not, ℕ, ◌+◌, ◌^◌, ◌<◌, ◌≡◌, refl, sym, ap, ◌∙◌, ◌⊎◌, inl, inr,
  Bool, true, false, not, some, List, [], ◌++◌, arith, ◌==◌, ltb, Bool-cases, ltb_false→le, ==→eq,
  ==_false→ne, length, take, drop, ℤ, pos, negsuc, length-take, length-drop, take_all, subst,
  take-take_more,
}
use cs8803_introduction_to_o.Socket.{Reply, Conn}
use cs8803_introduction_to_o.Getfile.Response.{gf_ok}
use cs8803_introduction_to_o.Getfile.Handler.{int_eq}
use cs8803_introduction_to_o.Proxy.Exchange.Turns.{cache_turn-proxy, turn-cases, turn-passes}
use cs8803_introduction_to_o.Proxy.Exchange.Sound.{
  Sound, IsSound, Sound-wake_cache, Sound-wake_proxy, IsEmptied-zero, cache_turn-Sound, Told, put,
  gone,
}
use cs8803_introduction_to_o.Proxy.Shared.{
  Segment, Wait, turn, Cache, Proxy, measuring, receiving, sending, calling, sent, finished,
  refused, failed_send, System, cache_holds_second, wake_cache, wake_proxy, is_zero, destroyed,
  start,
}
use cs8803_introduction_to_o.Proxy.Exchange.{
  loop_proxy, measured, proxy_turn, Step, cache_step, proxy_step, cache_wakes, proxy_wakes, Steps,
  here, next,
}

-- What a `gfs_send` promises: that it has taken every byte, where it says so.
abbrev pub SendsAll : (send : Reply → Conn → List ℕ → ℤ × Conn) → Type 0
SendsAll send =
    (r : Reply) (c : Conn) (bytes : List ℕ)
    → (send r c bytes).0 ≡ pos (length bytes)
    → (send r c bytes).1.sent ≡ c.sent ++ bytes

finished_not_failed : (z : ℤ) → finished z ≡ failed_send → ⊥
finished_not_failed z e = cc

not-true : (b : Bool) → not b ≡ true → b ≡ false
not-true true p = sym p
not-true false p = refl

int_eq→eq : (z : ℤ) (n : ℕ) → int_eq z (pos n) ≡ true → z ≡ pos n
int_eq→eq (pos m) n e = ap pos (==→eq m n e)
int_eq→eq (negsuc m) n e = cc

module _ (send_header : Conn → (status file_len : ℕ) → Conn)
    (send : Reply → Conn → List ℕ → ℤ × Conn) (sends : SendsAll send) (file : List ℕ)
    (c₀ : Conn) where
  abbrev base : List ℕ
  base = (send_header c₀ gf_ok (length file)).sent

  -- Up to a short send the invariant holds.
  abbrev IsHonest : System → Type 0
  IsHonest s = (s.proxy ≡ failed_send) ⊎ IsSound file c₀ base s

  Sound-loop_proxy :
      (n : ℕ) (s : System)
      → Sound file c₀ base s.segment s.cache (calling n) s.expected s.conn
      → IsSound file c₀ base (loop_proxy send_header send n s)
  Sound-loop_proxy n s f = elim (Bool-cases (ltb n (length file))) [
    | inl less ↦
        rw (f.told.0, less)
          (record {
            within = f.within;
            balance = f.balance;
            chunk = f.chunk;
            emptied = f.emptied;
            known = f.known;
            told = (refl, f.told.1);
          })
    | inr least ↦
        let all : n ≡ length file = omega (arith, ltb_false→le _ _ least, f.within, f.balance) in
        let put_all : put file c₀ base s.cache ≡ length file + 0 =
          omega (arith, ltb_false→le _ _ least, f.within, f.balance) in
        rw (f.told.0, least)
          (record {
            within = f.within;
            balance = put_all;
            chunk = refl;
            emptied = IsEmptied-zero file c₀ base (destroyed s.segment) s.cache refl;
            known = inl refl;
            told = (
              ap pos all,
              f.told.1 ∙ ap (λ bytes. base ++ bytes) (take_all n file (ltb_false→le _ _ least)),
            );
          })
  ]

  -- The length is there once it is not zero.
  Sound-measured :
      (s : System) (w : Wait)
      → is_zero s.segment.file_length ≡ false
      → Sound file c₀ base s.segment s.cache (measuring w) s.expected s.conn
      → IsSound file c₀ base (measured send_header send s.segment.file_length s)
  Sound-measured s w e f = elim f.known [
    | inl zero_length ↦ absurd (true_not_false (sym (ap is_zero zero_length) ∙ e))
    | inr full ↦
        let at_front : (send_header s.conn gf_ok (length file)).sent ≡ base ++ [] =
          rw (f.told, append-nil base) refl in
        subst (λ z. IsSound file c₀ base (measured send_header send z s)) (sym full)
          (Sound-loop_proxy 0
            (record s {
              cache = wake_cache s.cache;
              expected = pos (length file);
              conn = send_header s.conn gf_ok (length file);
            })
            (Sound-wake_cache file c₀ base s.segment s.cache (calling 0) (pos (length file))
              (send_header s.conn gf_ok (length file))
              (record {
                within = f.within;
                balance = f.balance;
                chunk = f.chunk;
                emptied = f.emptied;
                known = f.known;
                told = (refl, at_front);
              })))
  ]

  chunk-length :
      (m : Segment) (x : Cache) (y : Proxy) (e : ℤ) (c : Conn)
      → Sound file c₀ base m x y e c
      → length (take m.bytes_written m.area) ≡ m.bytes_written
  chunk-length m x y e c f =
      rw
        (
          f.chunk,
          length-take m.bytes_written (drop (gone file c₀ base y) file),
          length-drop (gone file c₀ base y) file,
        )
        (omega (arith, f.within, f.balance))

  Sound-sending :
      (n : ℕ) (r : Reply) (s : System)
      → Sound file c₀ base s.segment s.cache (sending n) s.expected s.conn
      → (send r s.conn (take s.segment.bytes_written s.segment.area)).0
        ≡ pos s.segment.bytes_written
      → Sound file c₀ base s.segment s.cache
          (sent n s.segment.bytes_written)
          s.expected
          (send r s.conn (take s.segment.bytes_written s.segment.area)).1
  Sound-sending n r s f all =
      let bytes = take s.segment.bytes_written s.segment.area in
      let complete : pos s.segment.bytes_written ≡ pos (length bytes) =
        ap pos (sym (chunk-length _ _ _ _ _ f)) in
      let more : (send r s.conn bytes).1.sent ≡ base ++ take (n + s.segment.bytes_written) file =
        sends r s.conn bytes (all ∙ complete)
        ∙ ap (λ front. front ++ bytes) f.told.1
        ∙ ap (λ chunk. (base ++ take n file) ++ chunk) f.chunk
        ∙ append_assoc base (take n file) (take s.segment.bytes_written (drop n file))
        ∙ ap (λ all. base ++ all) (take-take_more n s.segment.bytes_written file) in
      record {
        within = f.within;
        balance = f.balance;
        chunk = f.chunk;
        emptied = f.emptied;
        known = f.known;
        told = (f.told.0, more, refl, f.told.2);
      }

  proxy_turn-Sound :
      (y : Proxy) (r : Reply) (s : System) {t : System}
      → proxy_turn send_header send y r s ≡ some t
      → Sound file c₀ base s.segment s.cache y s.expected s.conn
      → IsHonest t
  unfolding proxy_turn
  proxy_turn-Sound (measuring w) r s p f =
      elim (turn-cases
        (turn (not (cache_holds_second s.cache)) (not (is_zero s.segment.file_length)) w) _ _ p) [
          | inl (w', q) ↦ inr (
              subst (IsSound file c₀ base) (some_inj q) (record {
                within = f.within;
                balance = f.balance;
                chunk = f.chunk;
                emptied = f.emptied;
                known = f.known;
                told = f.told;
              }))
          | inr (v, q) ↦ inr (
              subst (IsSound file c₀ base) (some_inj q)
                (Sound-measured s w (not-true _ (turn-passes _ _ w v)) f))
        ]
  proxy_turn-Sound (receiving w n) r s p f =
      elim (turn-cases (turn true (not (s.segment.bytes_written == 0)) w) _ _ p) [
        | inl (w', q) ↦ inr (
            subst (IsSound file c₀ base) (some_inj q) (record {
              within = f.within;
              balance = f.balance;
              chunk = f.chunk;
              emptied = f.emptied;
              known = f.known;
              told = f.told;
            }))
        | inr (v, q) ↦
            let some_bytes : 0 < s.segment.bytes_written = omega (
              arith,
              ==_false→ne s.segment.bytes_written 0 (not-true _ (turn-passes true _ w v)),
            ) in
            inr (
              subst (IsSound file c₀ base) (some_inj q) (record {
                within = f.within;
                balance = f.balance;
                chunk = f.chunk;
                emptied = f.emptied;
                known = f.known;
                told = (f.told.0, f.told.1, some_bytes);
              }))
      ]
  proxy_turn-Sound (sending n) r s {t} p f =
      let bytes = take s.segment.bytes_written s.segment.area in
      elim (Bool-cases (int_eq (send r s.conn bytes).0 (pos s.segment.bytes_written))) [
        | inl all ↦ inr (
            subst (IsSound file c₀ base) (some_inj (rw all at p))
              (Sound-sending n r s f (int_eq→eq _ _ all)))
        | inr short ↦ inl (sym (ap (λ u. u.proxy) (some_inj (rw short at p))))
      ]
  proxy_turn-Sound (sent n k) r s p f =
      let even : put file c₀ base s.cache ≡ n + k + 0 = omega (arith, f.balance, f.told.2) in
      inr (
        subst (IsSound file c₀ base) (some_inj p) (record {
          within = f.within;
          balance = even;
          chunk = refl;
          emptied =
              IsEmptied-zero file c₀ base (record s.segment { bytes_written = 0 }) s.cache refl;
          known = f.known;
          told = (f.told.0, f.told.1);
        }))
  proxy_turn-Sound (calling n) r s p f = inr (
      subst (IsSound file c₀ base) (some_inj p) (
        Sound-loop_proxy n (record s { cache = wake_cache s.cache })
          (Sound-wake_cache file c₀ base s.segment s.cache (calling n) s.expected s.conn f)))
  proxy_turn-Sound (finished z) r s p f = elim (none_not p) [ ]
  proxy_turn-Sound refused r s p f = elim (none_not p) [ ]
  proxy_turn-Sound failed_send r s p f = elim (none_not p) [ ]

  start-IsHonest : (area : List ℕ) → IsHonest (start area c₀)
  start-IsHonest area = inr (record {
    within = omega arith;
    balance = refl;
    chunk = refl;
    emptied = tt;
    known = inl refl;
    told = refl;
  })

  proxy_stuck :
      (r : Reply) (s : System) {t : System}
      → s.proxy ≡ failed_send
      → proxy_turn send_header send s.proxy r s ≡ some t
      → ⊥
  unfolding proxy_turn
  proxy_stuck r s e p = none_not (rw e at p)

  module _ (spurious : Bool) (room : ℕ) (small : length file < 2 ^ 31) where
    Step-IsHonest :
        {s t : System}
        → Step send_header send spurious (some file) room s t
        → IsHonest s
        → IsHonest t
    Step-IsHonest {s} (cache_step k p) (inr f) =
        inr (cache_turn-Sound file c₀ base room small s.cache k s p f)
    Step-IsHonest {s} (cache_step k p) (inl e) =
        elim (cache_turn-proxy (some file) room s.cache k s p) [
          | inl same ↦ inl (same ∙ e)
          | inr woken_up ↦ inl (woken_up ∙ ap wake_proxy e)
        ]
    Step-IsHonest {s} (proxy_step r p) (inr f) = proxy_turn-Sound s.proxy r s p f
    Step-IsHonest {s} (proxy_step r p) (inl e) = absurd (proxy_stuck r s e p)
    Step-IsHonest {s} (cache_wakes e) (inr f) =
        inr (Sound-wake_cache file c₀ base s.segment s.cache s.proxy s.expected s.conn f)
    Step-IsHonest {s} (cache_wakes e) (inl l) = inl l
    Step-IsHonest {s} (proxy_wakes e) (inr f) =
        inr (Sound-wake_proxy file c₀ base s.segment s.cache s.proxy s.expected s.conn f)
    Step-IsHonest {s} (proxy_wakes e) (inl l) = inl (ap wake_proxy l)

    Steps-IsHonest :
        {s t : System}
        → Steps send_header send spurious (some file) room s t
        → IsHonest s
        → IsHonest t
    Steps-IsHonest here f = f
    Steps-IsHonest (next run step) f = Step-IsHonest step (Steps-IsHonest run f)

    pub handle_with_cache-delivers :
        (area : List ℕ) {t : System} (z : ℤ)
        → Steps send_header send spurious (some file) room (start area c₀) t
        → t.proxy ≡ finished z
        → (z ≡ pos (length file)) × (t.conn.sent ≡ base ++ file)
    handle_with_cache-delivers area {t} z run done =
        elim (Steps-IsHonest run (start-IsHonest area)) [
          | inl e ↦ absurd (finished_not_failed z (sym done ∙ e))
          | inr f ↦
              subst (λ y. Told file c₀ base t.segment.bytes_written y t.expected t.conn) done f.told
        ]
