-- ===== src/Proxy/Exchange/Sound.antt =====
-- The invariant of a hand-over between proj3/simplecached.c and proj3/handle_with_cache.c, for a file
-- that the cache has, and that the cache's steps keep it.
use Prim.Native.Nat.{zero, suc}
use cs8803_introduction_to_o.Common.{
  some_inj, none_not, is_neg, false, ℕ, ◌+◌, ◌^◌, ◌≤◌, ◌<◌, ◌≡◌, refl, sym, ap, ◌∙◌, ◌⊎◌, inl, inr,
  not, some, List, [], ◌∷◌, ◌++◌, arith, ◌==◌, ltb, Bool-cases, ltb_false→le, ==→eq, length, take,
  drop, ℤ, pos, length-take, length-drop, take-append, subst,
}
use cs8803_introduction_to_o.Socket.{Conn}
use cs8803_introduction_to_o.Proxy.Exchange.Turns.{
  if_none, if_some, turn-cases, turn-passes, cache_length-small,
}
use cs8803_introduction_to_o.Proxy.Shared.{
  Segment, turn, Cache, opening, announcing, announced, unmapped, emptying, filling, signalling,
  Proxy, measuring, receiving, sending, calling, sent, finished, refused, failed_send, System,
  proxy_holds_second, wake_cache, wake_proxy,
}
use cs8803_introduction_to_o.Proxy.Exchange.{cache_length, loop_cache, cache_turn}

module _ (file : List ℕ) (c₀ : Conn) (base : List ℕ) where
  -- What the cache has put into the segment, and what the proxy has sent and cleared.
  abbrev pub put : Cache → ℕ
  put opening = 0
  put announcing = 0
  put announced = 0
  put unmapped = length file
  put (emptying w b) = b
  put (filling b) = b
  put (signalling b) = b

  abbrev pub gone : Proxy → ℕ
  gone (measuring w) = 0
  gone (receiving w n) = n
  gone (sending n) = n
  gone (calling n) = n
  gone (sent n k) = n
  gone _ = length file

  -- The segment is empty when the cache fills it.
  abbrev IsEmptied : Segment → Cache → Type 0
  IsEmptied m (filling b) = m.bytes_written ≡ 0
  IsEmptied m _ = Unit {0}

  -- What the client has been sent.
  abbrev pub Told : (written : ℕ) → Proxy → ℤ → Conn → Type 0
  Told written (measuring w) e c = c ≡ c₀
  Told written (receiving w n) e c = (e ≡ pos (length file)) × (c.sent ≡ base ++ take n file)
  Told written (sending n) e c =
      (e ≡ pos (length file)) × (c.sent ≡ base ++ take n file) × (0 < written)
  Told written (calling n) e c = (e ≡ pos (length file)) × (c.sent ≡ base ++ take n file)
  Told written (sent n k) e c =
      (e ≡ pos (length file)) × (c.sent ≡ base ++ take (n + k) file) × (k ≡ written) × (0 < k)
  Told written (finished z) e c = (z ≡ pos (length file)) × (c.sent ≡ base ++ file)
  Told written refused e c = ⊥
  Told written failed_send e c = ⊥

  pub record Sound (m : Segment) (x : Cache) (y : Proxy) (e : ℤ) (c : Conn) : Type 0 where
    pub within : put x ≤ length file
    pub balance : put x ≡ gone y + m.bytes_written
    pub chunk : take m.bytes_written m.area ≡ take m.bytes_written (drop (gone y) file)
    pub emptied : IsEmptied m x
    pub known : (m.file_length ≡ pos 0) ⊎ (m.file_length ≡ pos (length file))
    pub told : Told m.bytes_written y e c

  abbrev pub IsSound : System → Type 0
  IsSound s = Sound s.segment s.cache s.proxy s.expected s.conn

  -- A wake-up changes none of this.
  put-wake : (x : Cache) → put (wake_cache x) ≡ put x
  put-wake opening = refl
  put-wake announcing = refl
  put-wake announced = refl
  put-wake unmapped = refl
  put-wake (emptying w b) = refl
  put-wake (filling b) = refl
  put-wake (signalling b) = refl

  pub Sound-wake_cache :
      (m : Segment) (x : Cache) (y : Proxy) (e : ℤ) (c : Conn)
      → Sound m x y e c
      → Sound m (wake_cache x) y e c
  Sound-wake_cache m opening y e c f = f
  Sound-wake_cache m announcing y e c f = f
  Sound-wake_cache m announced y e c f = f
  Sound-wake_cache m unmapped y e c f = f
  Sound-wake_cache m (emptying w b) y e c f = record {
    within = f.within;
    balance = f.balance;
    chunk = f.chunk;
    emptied = tt;
    known = f.known;
    told = f.told;
  }
  Sound-wake_cache m (filling b) y e c f = f
  Sound-wake_cache m (signalling b) y e c f = f

  pub Sound-wake_proxy :
      (m : Segment) (x : Cache) (y : Proxy) (e : ℤ) (c : Conn)
      → Sound m x y e c
      → Sound m x (wake_proxy y) e c
  Sound-wake_proxy m x (measuring w) e c f = record {
    within = f.within;
    balance = f.balance;
    chunk = f.chunk;
    emptied = f.emptied;
    known = f.known;
    told = f.told;
  }
  Sound-wake_proxy m x (receiving w n) e c f = record {
    within = f.within;
    balance = f.balance;
    chunk = f.chunk;
    emptied = f.emptied;
    known = f.known;
    told = f.told;
  }
  Sound-wake_proxy m x (sending n) e c f = f
  Sound-wake_proxy m x (calling n) e c f = f
  Sound-wake_proxy m x (sent n k) e c f = f
  Sound-wake_proxy m x (finished z) e c f = f
  Sound-wake_proxy m x refused e c f = f
  Sound-wake_proxy m x failed_send e c f = f

  pub IsEmptied-zero : (m : Segment) (x : Cache) → m.bytes_written ≡ 0 → IsEmptied m x
  IsEmptied-zero m opening e = tt
  IsEmptied-zero m announcing e = tt
  IsEmptied-zero m announced e = tt
  IsEmptied-zero m unmapped e = tt
  IsEmptied-zero m (emptying w b) e = tt
  IsEmptied-zero m (filling b) e = e
  IsEmptied-zero m (signalling b) e = tt

  -- While the cache fills, the proxy does not send.
  Told-idle : (y : Proxy) (e : ℤ) (c : Conn) (j : ℕ) → Told 0 y e c → Told j y e c
  Told-idle (measuring w) e c j h = h
  Told-idle (receiving w n) e c j h = h
  Told-idle (calling n) e c j h = h
  Told-idle (finished z) e c j h = h
  Told-idle (sending n) e c j (h, g, l) = absurd (omega arith)
  Told-idle (sent n k) e c j (h, g, l, m) = absurd (omega arith)
  Told-idle refused e c j h = elim h [ ]
  Told-idle failed_send e c j h = elim h [ ]

  -- The bytes of a fill are the file's next ones.
  fill_front : (k : ℕ) (xs : List ℕ) → take (length (take k xs)) xs ≡ take k xs
  fill_front zero xs = refl
  fill_front (suc k) [] = refl
  fill_front (suc k) (x ∷ xs) = ap (λ ys. x ∷ ys) (fill_front k xs)

  fill-length : (k b : ℕ) → b ≤ length file → b + length (take k (drop b file)) ≤ length file
  fill-length k b h = rw (length-take k (drop b file), length-drop b file) (omega arith)

  module _ (room : ℕ) (small : length file < 2 ^ 31) where
    nonneg : is_neg (cache_length (some file) room) ≡ false
    nonneg = rw (cache_length-small file room small) refl

    -- Behind the last fill everything is put.
    Sound-loop_cache :
        (m : Segment) (b : ℕ) (y : Proxy) (e : ℤ) (c : Conn)
        → Sound m (signalling b) y e c
        → Sound m (loop_cache (some file) room b) y e c
    Sound-loop_cache m b y e c f = elim (Bool-cases (ltb b (length file))) [
      | inl less ↦
          rw ((cache_length-small file room small), less)
            (record {
              within = f.within;
              balance = f.balance;
              chunk = f.chunk;
              emptied = tt;
              known = f.known;
              told = f.told;
            })
      | inr least ↦
          let all : b ≡ length file = omega (arith, ltb_false→le _ _ least, f.within) in
          rw ((cache_length-small file room small), least)
            (record {
              within = omega arith;
              balance = rw (← all) f.balance;
              chunk = f.chunk;
              emptied = tt;
              known = f.known;
              told = f.told;
            })
    ]

    pub cache_turn-Sound :
        (x : Cache) (k : ℕ) (s : System) {t : System}
        → cache_turn (some file) room x k s ≡ some t
        → Sound s.segment x s.proxy s.expected s.conn
        → IsSound t
    unfolding cache_turn
    cache_turn-Sound opening k s p f = subst IsSound (some_inj p) (record {
      within = omega arith;
      balance = f.balance;
      chunk = f.chunk;
      emptied = tt;
      known = inl refl;
      told = f.told;
    })
    cache_turn-Sound announcing k s p f =
        let bare : s.segment.bytes_written ≡ 0 = omega (arith, f.balance) in
        let even : 0 ≡ gone s.proxy + 0 = omega (arith, f.balance) in
        let q = (if_some _ (if_none _ p).1).1 in
        subst IsSound (some_inj q) (record {
          within = f.within;
          balance = even;
          chunk = refl;
          emptied = tt;
          known = inr (cache_length-small file room small);
          told = rw bare at f.told;
        })
    cache_turn-Sound announced k s p f = subst IsSound (some_inj p) (
        rw nonneg (
          Sound-wake_proxy s.segment _ s.proxy s.expected s.conn (
            Sound-loop_cache s.segment 0 s.proxy s.expected s.conn (record {
              within = f.within;
              balance = f.balance;
              chunk = f.chunk;
              emptied = tt;
              known = f.known;
              told = f.told;
            }))))
    cache_turn-Sound unmapped k s p f = elim (none_not p) [ ]
    cache_turn-Sound (emptying w b) k s p f =
        elim (turn-cases (turn (not (proxy_holds_second s.proxy)) (s.segment.bytes_written == 0) w)
          _ _ p) [
            | inl (w', q) ↦ subst IsSound (some_inj q) (record {
              within = f.within;
              balance = f.balance;
              chunk = f.chunk;
              emptied = tt;
              known = f.known;
              told = f.told;
            })
            | inr (v, q) ↦ subst IsSound (some_inj q) (record {
              within = f.within;
              balance = f.balance;
              chunk = f.chunk;
              emptied = ==→eq _ _ (turn-passes _ _ w v);
              known = f.known;
              told = f.told;
            })
          ]
    cache_turn-Sound (filling b) k s p f =
        let goneb : gone s.proxy ≡ b = omega (arith, f.balance, f.emptied) in
        subst IsSound (some_inj p) (record {
          within = fill-length _ b f.within;
          balance = rw goneb refl;
          chunk = rw goneb (take-append _ _ ∙ sym (fill_front _ (drop b file)));
          emptied = tt;
          known = f.known;
          told = Told-idle s.proxy s.expected s.conn _ (rw f.emptied at f.told);
        })
    cache_turn-Sound (signalling b) k s p f = subst IsSound (some_inj p) (
        Sound-wake_proxy s.segment _ s.proxy s.expected s.conn
          (Sound-loop_cache s.segment b s.proxy s.expected s.conn f))
