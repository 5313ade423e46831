-- ===== src/Proxy/Exchange/Turns.antt =====
-- What an answered turn says: readings of the steps of proj3/simplecached.c and
-- proj3/handle_with_cache.c.
use cs8803_introduction_to_o.Common.{
  some_inj, none_not, ℕ, ◌<◌, ◌^◌, pos, arith, length, List, not, ◌==◌, ◌≡◌, refl, sym, ap, subst,
  ◌⊎◌, inl, inr, Bool, true, false, Option, none, some, if◌then◌else◌,
}
use cs8803_introduction_to_o.Proxy.Shared.{
  Cache, opening, announcing, announced, unmapped, emptying, filling, signalling, System,
  proxy_holds_second, wake_proxy, to_int, Wait, before, testing, dozing, asleep, woken, Turn, stays,
  passes, blocked, turn,
}
use cs8803_introduction_to_o.Proxy.Exchange.{cache_length, cache_turn}

module _ {ℓ} {A : Type ℓ} {t : A} where
  pub if_none :
      (b : Bool) {o : Option A} → (if b then none else o) ≡ some t → (b ≡ false) × (o ≡ some t)
  if_none true p = elim (none_not p) [ ]
  if_none false p = (refl, p)

  pub if_some :
      (b : Bool) {o : Option A} → (if b then o else none) ≡ some t → (b ≡ true) × (o ≡ some t)
  if_some true p = (refl, p)
  if_some false p = elim (none_not p) [ ]

  pub turn-cases :
      (v : Turn) (f : Wait → Option A) (o : Option A)
      → elim v [ stays w ↦ f w | passes ↦ o | blocked ↦ none ] ≡ some t
      → ((w : Wait) × (f w ≡ some t)) ⊎ ((v ≡ passes) × (o ≡ some t))
  turn-cases (stays w) f o p = inl (w, p)
  turn-cases passes f o p = inr (refl, p)
  turn-cases blocked f o p = elim (none_not p) [ ]

pub turn-passes : (free met : Bool) (w : Wait) → turn free met w ≡ passes → met ≡ true
unfolding turn
turn-passes true met before p = cc
turn-passes false met before p = cc
turn-passes free true testing p = refl
turn-passes free false testing p = cc
turn-passes free met dozing p = cc
turn-passes free met asleep p = cc
turn-passes true met woken p = cc
turn-passes false met woken p = cc

-- The cache changes where the proxy is by waking it at most.
pub cache_turn-proxy :
    (file : Option (List ℕ)) (room : ℕ) (x : Cache) (k : ℕ) (s : System) {t : System}
    → cache_turn file room x k s ≡ some t
    → (t.proxy ≡ s.proxy) ⊎ (t.proxy ≡ wake_proxy s.proxy)
unfolding cache_turn
cache_turn-proxy file room opening k s p = inl (sym (ap (λ u. u.proxy) (some_inj p)))
cache_turn-proxy file room announcing k s p =
    inl (sym (ap (λ u. u.proxy) (some_inj (if_some _ (if_none _ p).1).1)))
cache_turn-proxy file room announced k s p = inr (sym (ap (λ u. u.proxy) (some_inj p)))
cache_turn-proxy file room unmapped k s p = absurd (none_not p)
cache_turn-proxy file room (emptying w b) k s p =
    elim (turn-cases (turn (not (proxy_holds_second s.proxy)) (s.segment.bytes_written == 0) w) _ _
      p) [
        | inl (w', q) ↦ inl (sym (ap (λ u. u.proxy) (some_inj q)))
        | inr (v, q) ↦ inl (sym (ap (λ u. u.proxy) (some_inj q)))
      ]
cache_turn-proxy file room (filling b) k s p = inl (sym (ap (λ u. u.proxy) (some_inj p)))
cache_turn-proxy file room (signalling b) k s p = inr (sym (ap (λ u. u.proxy) (some_inj p)))

-- It leaves the client's connection alone, and gives the length only as it is.
abbrev Kept : Option (List ℕ) → (room : ℕ) → System → System → Type 0
Kept file room s t =
    (t.conn ≡ s.conn)
    × ((t.segment.file_length ≡ s.segment.file_length)
        ⊎ (t.segment.file_length ≡ pos 0)
        ⊎ (t.segment.file_length ≡ cache_length file room))

pub cache_turn-Kept :
    (file : Option (List ℕ)) (room : ℕ) (x : Cache) (k : ℕ) (s : System) {t : System}
    → cache_turn file room x k s ≡ some t
    → Kept file room s t
unfolding cache_turn
cache_turn-Kept file room opening k s p =
    subst (Kept file room s) (some_inj p) (refl, inr (inl refl))
cache_turn-Kept file room announcing k s p =
    subst (Kept file room s) (some_inj (if_some _ (if_none _ p).1).1) (refl, inr (inr refl))
cache_turn-Kept file room announced k s p = subst (Kept file room s) (some_inj p) (refl, inl refl)
cache_turn-Kept file room unmapped k s p = absurd (none_not p)
cache_turn-Kept file room (emptying w b) k s p =
    elim (turn-cases (turn (not (proxy_holds_second s.proxy)) (s.segment.bytes_written == 0) w) _ _
      p) [
        | inl (w', q) ↦ subst (Kept file room s) (some_inj q) (refl, inl refl)
        | inr (v, q) ↦ subst (Kept file room s) (some_inj q) (refl, inl refl)
      ]
cache_turn-Kept file room (filling b) k s p = subst (Kept file room s) (some_inj p) (refl, inl refl)
cache_turn-Kept file room (signalling b) k s p =
    subst (Kept file room s) (some_inj p) (refl, inl refl)

to_int-small : (n : ℕ) → n < 2 ^ 31 → to_int n ≡ pos n
to_int-small n h = ground arith

pub cache_length-small :
    (file : List ℕ) (room : ℕ)
    → length file < 2 ^ 31
    → cache_length (some file) room ≡ pos (length file)
cache_length-small file room small = to_int-small _ small
