-- ===== src/Threads/Shapes.antt =====
-- What the steps of the multithreaded server change, and lists of addresses without repetition.
use cs8803_introduction_to_o.Common.{
  set_at, ℕ, ◌≡◌, refl, sym, ◌⊎◌, inl, inr, some, List, [], ◌∷◌, ◌++◌, ◌==◌, Bool-cases, ok,
  ok_injective, exited_not_ok, bind-ok,
}
use cs8803_introduction_to_o.Steque.{Steque, null, enqueue, pop}
use cs8803_introduction_to_o.Threads.{Task, Pool, working, accept_task, take_task}

abbrev pub In : ℕ → List ℕ → Type 0
In a [] = ⊥
In a (x ∷ xs) = (a ≡ x) ⊎ In a xs

abbrev pub Distinct : List ℕ → Type 0
Distinct [] = Unit {0}
Distinct (x ∷ xs) = (In x xs → ⊥) × Distinct xs

pub In-front : (a : ℕ) (xs ys : List ℕ) → In a xs → In a (xs ++ ys)
In-front a [] ys h = absurd h
In-front a (x ∷ xs) ys (inl e) = inl e
In-front a (x ∷ xs) ys (inr h) = inr (In-front a xs ys h)

pub In-behind : (a : ℕ) (xs ys : List ℕ) → In a ys → In a (xs ++ ys)
In-behind a [] ys h = h
In-behind a (x ∷ xs) ys h = inr (In-behind a xs ys h)

pub In-last : (b a : ℕ) (xs : List ℕ) → In b (xs ++ a ∷ []) → In b xs ⊎ (b ≡ a)
In-last b a [] (inl e) = inr e
In-last b a [] (inr h) = absurd h
In-last b a (x ∷ xs) (inl e) = inl (inl e)
In-last b a (x ∷ xs) (inr h) = elim (In-last b a xs h) [ inl k ↦ inl (inr k) | inr e ↦ inr e ]

pub Distinct-last : (a : ℕ) (xs : List ℕ) → Distinct xs → (In a xs → ⊥) → Distinct (xs ++ a ∷ [])
Distinct-last a [] d out = ((λ h. h), tt)
Distinct-last a (x ∷ xs) (first, d) out = (
  (λ h. elim (In-last x a xs h) [ inl k ↦ first k | inr e ↦ out (inl (sym e)) ]),
  Distinct-last a xs d (λ h. out (inr h)),
)

-- What stands behind a part of the list is not in that part.
pub Distinct-middle : (a : ℕ) (xs ys : List ℕ) → Distinct (xs ++ a ∷ ys) → In a xs → ⊥
Distinct-middle a [] ys d h = h
Distinct-middle a (x ∷ xs) ys (first, d) (inl e) =
    first (rw (sym e) (In-behind a xs (a ∷ ys) (inl refl)))
Distinct-middle a (x ∷ xs) ys (first, d) (inr h) = Distinct-middle a xs ys d h

pub accept_task-shape :
    (a p : ℕ) (s : Pool) (k : Task) {s' : Pool}
    → accept_task a p s k ≡ ok s'
    → (q : Steque) × (record s {
      queue = q;
      tasks = set_at s.tasks a (some k);
      accepted = s.accepted ++ a ∷ [];
    }
        ≡ s')
unfolding accept_task
accept_task-shape a p s k out = elim (Bool-cases (a == null)) [
  | inl e ↦ absurd (exited_not_ok (rw e at out))
  | inr e ↦
      let (q, run, rest) = bind-ok (enqueue p s.queue a) _ (rw e at out) in (q, ok_injective rest)
]

pub take_task-shape :
    (i : ℕ) (s : Pool) {s' : Pool}
    → take_task i s ≡ ok s'
    → (job : ℕ) × (q : Steque) × (record s {
      queue = q;
      workers = set_at s.workers i (working job);
      taken = s.taken ++ job ∷ [];
    }
        ≡ s')
unfolding take_task
take_task-shape i s out =
    let (popped, run, rest) = bind-ok (pop s.queue) _ out in (popped.0, popped.1, ok_injective rest)
