-- ===== src/Steque/Rotate.antt =====
-- `steque_cycle` of proj1/multithreadgetfile/steque.c.
use cs8803_introduction_to_o.Common.{
  ℕ, ◌≡◌, refl, sym, ap, ◌∙◌, ◌==◌, ne→==, false, Option, ◌≢◌, some, [], ◌∷◌, ◌++◌, arith,
  length-append, ok,
}
use mathlib.Core.Path.{subst₂}
use cs8803_introduction_to_o.Steque.{Steque, Node, node, update, load, set_next, null, cycle}
use cs8803_introduction_to_o.Steque.Cells.{
  Cells, last, last_item, Linked, IsSteque, Linked-update, last-node, Linked-retarget, Linked-snoc,
  has-last, ne_of_has, update-ne, update_self, load-ok, set_next-ok, last-append,
}

-- On an empty queue it does nothing.
cycle-nil : {s : Steque} → IsSteque s [] → cycle s ≡ ok s
unfolding cycle
cycle-nil is = ground arith

-- On one node it leaves the same queue.
cycle_single :
    {s : Steque} (p v : ℕ)
    → IsSteque s ((p, v) ∷ [])
    → (s' : Steque) × (cycle s ≡ ok s') × IsSteque s' ((p, v) ∷ [])
unfolding cycle load set_next
cycle_single {s} p v is = (
  record {
    nodes = update (update s.nodes p (some (node v p))) p (some (node v null));
    front = p;
    back = p;
    size = s.size;
  },
  ground arith,
  record {
    linked = (is.linked.0, ground arith, refl, tt);
    at_front = refl;
    at_back = refl;
    counted = is.counted;
  },
)

-- The two writes of `steque_cycle` on a chain of two nodes or more.
Linked-rotate :
    (h : ℕ → Option Node) (back front p v q w : ℕ) (xs : Cells)
    → back ≡ last xs q
    → front ≡ p
    → Linked h null ((p, v) ∷ (q, w) ∷ xs)
    → Linked
        (update (update h back (some (node (last_item xs w) front))) front (some (node v null)))
        null
        ((q, w) ∷ xs ++ (p, v) ∷ [])
Linked-rotate h back front p v q w xs at_back at_front l =
    subst₂
      (λ b f.
        Linked (update (update h b (some (node (last_item xs w) f))) f (some (node v null))) null
          ((q, w) ∷ xs ++ (p, v) ∷ []))
      (sym at_back) (sym at_front)
      (Linked-snoc h₂ null p v ((q, w) ∷ xs)
        (Linked-update h₁ p (some (node v null)) p ((q, w) ∷ xs) l.2
          (Linked-retarget h null p q w xs l.3))
        l.2 l.0 (update_self h₁ p (some (node v null))))
  where
    h₁ : ℕ → Option Node
    h₁ = update h (last xs q) (some (node (last_item xs w) p))

    h₂ : ℕ → Option Node
    h₂ = update h₁ p (some (node v null))

-- On two nodes or more the first becomes the last.
cycle_many :
    {s : Steque} (p v q w : ℕ) (xs : Cells)
    → IsSteque s ((p, v) ∷ (q, w) ∷ xs)
    → (s' : Steque) × (cycle s ≡ ok s') × IsSteque s' ((q, w) ∷ xs ++ (p, v) ∷ [])
unfolding cycle
cycle_many {s} p v q w xs is = (
  record {
    nodes =
        update (update s.nodes s.back (some (node (last_item xs w) s.front))) s.front
          (some (node v null));
    front = q;
    back = s.front;
    size = s.size;
  },
  rw
      (
        back_ne,
        set_next-ok s s.back _ back_ne_null back_node s.front,
        load-ok (record s { nodes = h₁; back = s.front }) s.front _ front_ne_null front_node,
        set_next-ok (record s { nodes = h₁; back = s.front; front = q }) s.front _ front_ne_null
            front_node null,
      )
      refl,
  record {
    linked = Linked-rotate s.nodes s.back s.front p v q w xs is.at_back is.at_front is.linked;
    at_front = refl;
    at_back = is.at_front ∙ sym (last-append xs p v q);
    counted = omega (arith, is.counted, length-append xs ((p, v) ∷ []));
  },
)
  where
    last_fact : (last xs q ≢ null) × (s.nodes (last xs q) ≡ some (node (last_item xs w) null))
    last_fact = last-node s.nodes null q w xs is.linked.3

    back_ne_null : s.back ≢ null
    back_ne_null = λ e. last_fact.0 (sym is.at_back ∙ e)

    front_ne_null : s.front ≢ null
    front_ne_null = λ e. is.linked.0 (sym is.at_front ∙ e)

    back_ne : (s.back == null) ≡ false
    back_ne = ne→== s.back null back_ne_null

    back_node : s.nodes s.back ≡ some (node (last_item xs w) null)
    back_node = ap s.nodes is.at_back ∙ last_fact.1

    h₁ : ℕ → Option Node
    h₁ = update s.nodes s.back (some (node (last_item xs w) s.front))

    ends_differ : s.back ≢ s.front
    ends_differ = λ e.
        ne_of_has ((q, w) ∷ xs) is.linked.2 (has-last q w xs) (sym is.at_front ∙ sym e ∙ is.at_back)

    front_node : h₁ s.front ≡ some (node v q)
    front_node = update-ne s.nodes _ ends_differ ∙ ap s.nodes is.at_front ∙ is.linked.1

-- The abstract rotation.
abbrev rotate : Cells → Cells
rotate [] = []
rotate (c ∷ xs) = xs ++ c ∷ []

-- steque_cycle on a well-formed queue of any length succeeds and leaves a well-formed queue with the
-- first node behind the last.
pub cycle-rotate :
    {s : Steque} (xs : Cells)
    → IsSteque s xs
    → (s' : Steque) × (cycle s ≡ ok s') × IsSteque s' (rotate xs)
cycle-rotate {s} [] is = (s, cycle-nil is, is)
cycle-rotate ((p, v) ∷ []) is = cycle_single p v is
cycle-rotate ((p, v) ∷ (q, w) ∷ xs) is = cycle_many p v q w xs is
