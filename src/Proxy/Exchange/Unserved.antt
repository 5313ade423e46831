-- ===== src/Proxy/Exchange/Unserved.antt =====
-- What the client of the proxy gets for a file that proj3/simplecached.c does not find, or finds empty.
use cs8803_introduction_to_o.Common.{
  some_inj, none_not, true_not_false, ℕ, ◌≡◌, refl, sym, ap, ◌∙◌, ◌⊎◌, inl, inr, Bool, not, none,
  some, List, [], ℤ, pos, subst,
}
use cs8803_introduction_to_o.Socket.{Reply, Conn, minus_one}
use cs8803_introduction_to_o.Getfile.Response.{gf_file_not_found}
use cs8803_introduction_to_o.Proxy.Shared.{
  Wait, before, wake, turn, Proxy, measuring, refused, System, cache_holds_second, is_zero,
  wake_proxy, start,
}
use cs8803_introduction_to_o.Proxy.Exchange.{
  measured, proxy_turn, Step, cache_step, proxy_step, cache_wakes, proxy_wakes, Steps, here, next,
}
use cs8803_introduction_to_o.Proxy.Exchange.Turns.{
  turn-cases, turn-passes, cache_turn-proxy, cache_turn-Kept,
}

module _ (send_header : Conn → (status file_len : ℕ) → Conn)
    (send : Reply → Conn → List ℕ → ℤ × Conn) (spurious : Bool) (room : ℕ) (area : List ℕ)
    (c : Conn) where
  -- The handler waits for the length, and has sent nothing.
  abbrev Waits : Proxy → Conn → Type 0
  Waits y c' = ((w : Wait) × (y ≡ measuring w)) × (c' ≡ c)

  abbrev Refused : Proxy → Conn → Type 0
  Refused y c' = (y ≡ refused) × (c' ≡ send_header c gf_file_not_found 0)

  Waits-wake : (y : Proxy) (c' : Conn) → Waits y c' → Waits (wake_proxy y) c'
  Waits-wake y c' ((w, e), same) = ((wake w, ap wake_proxy e), same)

  abbrev IsHung : System → Type 0
  IsHung s = (s.segment.file_length ≡ pos 0) × Waits s.proxy s.conn

  empty_turn :
      (w : Wait) (r : Reply) (s : System) {t : System}
      → IsHung s
      → proxy_turn send_header send (measuring w) r s ≡ some t
      → IsHung t
  unfolding proxy_turn
  empty_turn w r s (none_yet, waits) p =
      elim (turn-cases
        (turn (not (cache_holds_second s.cache)) (not (is_zero s.segment.file_length)) w) _ _ p) [
          | inl (w', q) ↦ subst IsHung (some_inj q) (none_yet, ((w', refl), waits.1))
          | inr (v, q) ↦
              absurd
                (true_not_false (sym (turn-passes _ _ w v) ∙ ap (λ z. not (is_zero z)) none_yet))
        ]

  empty-Step :
      {s t : System} → Step send_header send spurious (some []) room s t → IsHung s → IsHung t
  empty-Step {s} {t} (cache_step k p) (none_yet, waits) =
      let (same, length_is) = cache_turn-Kept (some []) room s.cache k s p in
      let length_zero : t.segment.file_length ≡ pos 0 = elim length_is [
        | inl e ↦ e ∙ none_yet
        | inr (inl e) ↦ e
        | inr (inr e) ↦ e
      ] in
      elim (cache_turn-proxy (some []) room s.cache k s p) [
        | inl e ↦ (length_zero, ((waits.0.0, e ∙ waits.0.1), same ∙ waits.1))
        | inr e ↦ (length_zero, ((wake waits.0.0, e ∙ ap wake_proxy waits.0.1), same ∙ waits.1))
      ]
  empty-Step {s} {t} (proxy_step r p) (none_yet, waits) =
      empty_turn waits.0.0 r s (none_yet, waits)
        (subst (λ y. proxy_turn send_header send y r s ≡ some t) waits.0.1 p)
  empty-Step {s} (cache_wakes e) hung = hung
  empty-Step {s} (proxy_wakes e) (none_yet, waits) = (none_yet, Waits-wake s.proxy s.conn waits)

  -- For an empty file that the cache has, after any run of the two processes, with or without
  -- spurious wake-ups, the handler still waits for the length, and has sent the client nothing.
  pub handle_with_cache-hangs_on_empty :
      {t : System}
      → Steps send_header send spurious (some []) room (start area c) t
      → ((w : Wait) × (t.proxy ≡ measuring w)) × (t.conn ≡ c)
  handle_with_cache-hangs_on_empty run = (go run).1
    where
      go : {t : System} → Steps send_header send spurious (some []) room (start area c) t → IsHung t
      go here = (refl, ((before, refl), refl))
      go (next more step) = empty-Step step (go more)

  abbrev IsUnserved : System → Type 0
  IsUnserved s =
      ((s.segment.file_length ≡ pos 0) ⊎ (s.segment.file_length ≡ minus_one))
      × (Waits s.proxy s.conn ⊎ Refused s.proxy s.conn)

  missing_turn :
      (w : Wait) (r : Reply) (s : System) {t : System}
      → (s.segment.file_length ≡ pos 0) ⊎ (s.segment.file_length ≡ minus_one)
      → Waits (measuring w) s.conn
      → proxy_turn send_header send (measuring w) r s ≡ some t
      → IsUnserved t
  unfolding proxy_turn
  missing_turn w r s l waits p =
      elim (turn-cases
        (turn (not (cache_holds_second s.cache)) (not (is_zero s.segment.file_length)) w) _ _ p) [
          | inl (w', q) ↦ subst IsUnserved (some_inj q) (l, inl ((w', refl), waits.1))
          | inr (v, q) ↦ elim l [
            | inl none_yet ↦
                absurd
                  (true_not_false (sym (turn-passes _ _ w v) ∙ ap (λ z. not (is_zero z)) none_yet))
            | inr missing ↦
                subst IsUnserved
                  (ap (λ z. measured send_header send z s) (sym missing) ∙ some_inj q)
                  (inl refl, inr (refl, ap (λ d. send_header d gf_file_not_found 0) waits.1))
          ]
        ]

  refused_ends :
      (r : Reply) (s : System) {t : System} → proxy_turn send_header send refused r s ≡ some t → ⊥
  unfolding proxy_turn
  refused_ends r s p = none_not p

  missing-Step :
      {s t : System} → Step send_header send spurious none room s t → IsUnserved s → IsUnserved t
  missing-Step {s} {t} (cache_step k p) (l, state) =
      let (same, length_is) = cache_turn-Kept none room s.cache k s p in
      let length_of : (t.segment.file_length ≡ pos 0) ⊎ (t.segment.file_length ≡ minus_one) =
        elim length_is [
          | inl e ↦ elim l [ inl f ↦ inl (e ∙ f) | inr f ↦ inr (e ∙ f) ]
          | inr (inl e) ↦ inl e
          | inr (inr e) ↦ inr e
        ] in
      elim state [
        | inl ((w, e), c') ↦ elim (cache_turn-proxy none room s.cache k s p) [
          | inl d ↦ (length_of, inl ((w, d ∙ e), same ∙ c'))
          | inr d ↦ (length_of, inl ((wake w, d ∙ ap wake_proxy e), same ∙ c'))
        ]
        | inr (e, c') ↦ elim (cache_turn-proxy none room s.cache k s p) [
          | inl d ↦ (length_of, inr (d ∙ e, same ∙ c'))
          | inr d ↦ (length_of, inr (d ∙ ap wake_proxy e, same ∙ c'))
        ]
      ]
  missing-Step {s} {t} (proxy_step r p) (l, inl ((w, e), c')) =
      missing_turn w r s l ((w, refl), c')
        (subst (λ y. proxy_turn send_header send y r s ≡ some t) e p)
  missing-Step {s} {t} (proxy_step r p) (l, inr (e, c')) =
      absurd (refused_ends r s (subst (λ y. proxy_turn send_header send y r s ≡ some t) e p))
  missing-Step {s} (cache_wakes e) state = state
  missing-Step {s} (proxy_wakes e) (l, inl waits) = (l, inl (Waits-wake s.proxy s.conn waits))
  missing-Step {s} (proxy_wakes e) (l, inr (f, c')) = (l, inr (ap wake_proxy f, c'))

  -- For a file that the cache has not, after any run of the two processes: the handler still waits
  -- for the length and has sent nothing, or it has returned and the client was sent exactly the
  -- header for a missing file.
  pub handle_with_cache-refuses_missing :
      {t : System}
      → Steps send_header send spurious none room (start area c) t
      → (((w : Wait) × (t.proxy ≡ measuring w)) × (t.conn ≡ c))
        ⊎ ((t.proxy ≡ refused) × (t.conn ≡ send_header c gf_file_not_found 0))
  handle_with_cache-refuses_missing run = (go run).1
    where
      go : {t : System} → Steps send_header send spurious none room (start area c) t → IsUnserved t
      go here = (inl refl, inl ((before, refl), refl))
      go (next more step) = missing-Step step (go more)
