-- ===== src/Steque/Queue.antt =====
-- The operations at the two ends of the queue.
use cs8803_introduction_to_o.Common.{
  ℕ, suc, ◌<◌, ◌≡◌, refl, sym, ◌∙◌, ◌≢◌, ◌==◌, false, none, some, [], ◌∷◌, ◌++◌, arith, length,
  length-append, ok, exited, dec32, u32_mod, inc32,
}
use cs8803_introduction_to_o.Steque.{
  Steque, node, update, null, init, enqueue, push, pop, front, is_empty, size,
}
use cs8803_introduction_to_o.Steque.Cells.{
  Cells, has, last, last_item, IsSteque, Linked-update, Linked-fresh, last-node, Linked-retarget,
  Linked-snoc, has-last, ne_of_has, update-ne, last-append, last-ne-null,
}

-- `steque_init` gives the empty queue.
pub init-IsSteque : (s : Steque) → IsSteque (init s) []
unfolding init
init-IsSteque s = record { linked = tt; at_front = refl; at_back = refl; counted = refl }

module _ {s : Steque} (p v : ℕ) (np : p ≢ null) (unused : s.nodes p ≡ none) where
  -- steque_push with a new node that is not null and not in use, on a well-formed queue whose size
  -- does not overflow: it succeeds and leaves the well-formed queue with the item in front of the
  -- others.
  pub push-IsSteque :
      (xs : Cells)
      → IsSteque s xs
      → suc (length xs) < u32_mod
      → (s' : Steque) × (push p s v ≡ ok s') × IsSteque s' ((p, v) ∷ xs)
  unfolding push
  push-IsSteque [] is small = (
    record {
      nodes = update s.nodes p (some (node v s.front));
      front = p;
      back = p;
      size = inc32 s.size;
    },
    ground arith,
    record {
      linked = (np, ground arith, refl, tt);
      at_front = refl;
      at_back = refl;
      counted = omega arith;
    },
  )
  push-IsSteque ((q, w) ∷ xs) is small = (
    record s { nodes = update s.nodes p (some (node v s.front)); front = p; size = inc32 s.size },
    ground (arith, last-ne-null s.nodes null q w xs is.linked),
    record {
      linked = (
        np,
        ground arith,
        Linked-fresh s.nodes p null ((q, w) ∷ xs) is.linked unused,
        Linked-update s.nodes p _ null ((q, w) ∷ xs)
            (Linked-fresh s.nodes p null ((q, w) ∷ xs) is.linked unused) is.linked,
      );
      at_front = refl;
      at_back = is.at_back;
      counted = omega arith;
    },
  )

  -- steque_enqueue with a new node that is not null and not in use, on a well-formed queue whose
  -- size does not overflow: it succeeds and leaves the well-formed queue with the item behind the
  -- others.
  pub enqueue-IsSteque :
      (xs : Cells)
      → IsSteque s xs
      → suc (length xs) < u32_mod
      → (s' : Steque) × (enqueue p s v ≡ ok s') × IsSteque s' (xs ++ (p, v) ∷ [])
  unfolding enqueue
  enqueue-IsSteque [] is small = (
    record {
      nodes = update s.nodes p (some (node v null));
      front = p;
      back = p;
      size = inc32 s.size;
    },
    ground arith,
    record {
      linked = (np, ground arith, refl, tt);
      at_front = refl;
      at_back = refl;
      counted = omega arith;
    },
  )
  enqueue-IsSteque ((q, w) ∷ xs) is small = (
    record s {
      nodes =
          update (update s.nodes p (some (node v null))) (last xs q)
            (some (node (last_item xs w) p));
      back = p;
      size = inc32 s.size;
    },
    ground (arith, last-node s.nodes null q w xs is.linked, ne_last),
    record {
      linked =
          Linked-snoc _ null p v ((q, w) ∷ xs)
            (Linked-retarget (update s.nodes p (some (node v null))) null p q w xs
              (Linked-update s.nodes p _ null ((q, w) ∷ xs) fresh is.linked))
            fresh np
            (update-ne (update s.nodes p (some (node v null))) _ (λ e. ne_last (sym e))
              ∙ ground arith);
      at_front = is.at_front;
      at_back = sym (last-append xs p v q);
      counted = omega (arith, length-append xs ((p, v) ∷ []));
    },
  )
    where
      fresh : has p ((q, w) ∷ xs) ≡ false
      fresh = Linked-fresh s.nodes p null ((q, w) ∷ xs) is.linked unused

      ne_last : p ≢ last xs q
      ne_last = ne_of_has ((q, w) ∷ xs) fresh (has-last q w xs)

-- steque_pop on a well-formed queue with a first node, whose size fits 32 bits: it returns the first
-- item, frees its node, and leaves the well-formed queue of the others.
pub pop-IsSteque :
    {s : Steque} (p v : ℕ) (xs : Cells)
    → IsSteque s ((p, v) ∷ xs)
    → suc (length xs) < u32_mod
    → (s' : Steque) × (pop s ≡ ok (v, s')) × IsSteque s' xs × (s'.nodes p ≡ none)
unfolding pop
pop-IsSteque {s} p v [] is small = (
  record { nodes = update s.nodes p none; front = null; back = null; size = dec32 s.size },
  ground arith,
  record { linked = tt; at_front = refl; at_back = refl; counted = omega arith },
  ground arith,
)
pop-IsSteque {s} p v ((q, w) ∷ xs) is small = (
  record { nodes = update s.nodes p none; front = q; back = s.back; size = dec32 s.size },
  ground arith,
  record {
    linked = Linked-update s.nodes p none null ((q, w) ∷ xs) is.linked.2 is.linked.3;
    at_front = refl;
    at_back = is.at_back;
    counted = omega arith;
  },
  ground arith,
)

pub pop-nil : {s : Steque} → IsSteque s [] → pop s ≡ exited 1
unfolding pop
pop-nil is = ground arith

front-first : {s : Steque} (p v : ℕ) (xs : Cells) → IsSteque s ((p, v) ∷ xs) → front s ≡ ok v
unfolding front
front-first p v xs is = ground arith

-- `steque_isempty` and `steque_size` tell the number of items.
pub is_empty-length :
    {s : Steque} (xs : Cells)
    → IsSteque s xs
    → (is_empty s ≡ (length xs == 0)) × (size s ≡ length xs)
unfolding is_empty size
is_empty-length xs is = (rw is.counted, is.counted)
