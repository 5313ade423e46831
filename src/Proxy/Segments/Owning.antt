-- ===== src/Proxy/Segments/Owning.antt =====
-- Who owns a segment of proj3/handle_with_cache.c: no two handlers, and the queue is never full when
-- one is given back.
use cs8803_introduction_to_o.Common.{
  some_inj, none_not, ℕ, zero, suc, ◌+◌, ◌-◌, ◌<◌, ◌≤◌, ◌≡◌, ◌↔◌, refl, sym, ap, ◌∙◌, subst, ◌⊎◌,
  inl, inr, false, some, List, [], ◌∷◌, ◌++◌, ◌==◌, if◌then◌else◌, length, length-append, arith,
  Bool-cases, ==→eq, eq→==, ne→==,
}
use cs8803_introduction_to_o.Proxy.Segments.{
  Pool, queue_from, init_proxy, Acquired, waits, exits, takes, acquire, release, Handlers, Step,
  acquires, releases, loses, Steps, here, next,
}

-- How often a segment is on a list.
abbrev pub count : ℕ → List ℕ → ℕ
count x [] = 0
count x (y ∷ ys) = (if x == y then 1 else 0) + count x ys

count-append : (x : ℕ) (xs ys : List ℕ) → count x (xs ++ ys) ≡ count x xs + count x ys
count-append x [] ys = omega arith
count-append x (y ∷ xs) ys = omega (arith, count-append x xs ys)

count-middle :
    (x i : ℕ) (xs ys : List ℕ)
    → count x (xs ++ i ∷ ys) ≡ (if x == i then 1 else 0) + count x (xs ++ ys)
count-middle x i xs ys = omega (arith, count-append x xs ys, count-append x xs (i ∷ ys))

length-middle : (i : ℕ) (xs ys : List ℕ) → length (xs ++ i ∷ ys) ≡ 1 + length (xs ++ ys)
length-middle i xs ys = omega (arith, length-append xs ys, length-append xs (i ∷ ys))

-- `init_proxy` puts no number twice on the queue.
count-queue_from :
    (x i rounds : ℕ) (queue : List ℕ)
    → (count x queue ≡ 0) ⊎ (x < i)
    → count x queue ≤ 1
    → count x (queue_from i rounds queue) ≤ 1
count-queue_from x i zero queue fresh once = once
count-queue_from x i (suc rounds) queue fresh once =
    let further = count-queue_from x (i + 1) rounds (queue ++ i ∷ []) in
    elim (Bool-cases (x == i)) [
      | inl same ↦ further (inr (omega (arith, ==→eq x i same))) (elim fresh [
        | inl none_yet ↦ rw (count-append x queue (i ∷ []), same) (omega arith)
        | inr less ↦ absurd (omega (arith, ==→eq x i same))
      ])
      | inr other ↦
          let kept : count x (queue ++ i ∷ []) ≡ count x queue =
            rw (count-append x queue (i ∷ []), other) (omega arith) in
          further
            (elim fresh [ inl none_yet ↦ inl (kept ∙ none_yet) | inr less ↦ inr (omega arith) ])
            (rw kept once)
    ]

length-queue_from :
    (i rounds : ℕ) (queue : List ℕ) → length (queue_from i rounds queue) ≡ length queue + rounds
length-queue_from i zero queue = omega arith
length-queue_from i (suc rounds) queue =
    omega (arith, length-queue_from (i + 1) rounds (queue ++ i ∷ []), length-append queue (i ∷ []))

record Owned (segments : ℕ) (s : Handlers) : Type 0 where
  counted : s.pool.size ≡ length s.pool.queue
  bounded : s.pool.max_size ≡ segments
  kept : length s.pool.queue + length s.held + length s.lost ≡ segments
  once : (x : ℕ) → count x s.pool.queue + count x s.held + count x s.lost ≤ 1

init_proxy-Owned :
    (segments : ℕ) → Owned segments (record { pool = init_proxy segments; held = []; lost = [] })
unfolding init_proxy
init_proxy-Owned segments = record {
  counted = refl;
  bounded = omega (arith, length-queue_from 0 segments []);
  kept = omega (arith, length-queue_from 0 segments []);
  once = λ x. omega (arith, count-queue_from x 0 segments [] (inl refl) (omega arith));
}

waits_not_takes : {i : ℕ} {p : Pool} → waits ≡ takes i p → ⊥
waits_not_takes e = cc

exits_not_takes : {i : ℕ} {p : Pool} → exits ≡ takes i p → ⊥
exits_not_takes e = cc

takes_not_waits : {i : ℕ} {p : Pool} → takes i p ≡ waits → ⊥
takes_not_waits e = cc

exits_not_waits : exits ≡ waits → ⊥
exits_not_waits e = cc

takes_inj : {i j : ℕ} {p q : Pool} → takes i p ≡ takes j q → ◌≡◌ {A = ℕ × Pool} (i, p) (j, q)
takes_inj {i} {j} {p} {q} e = ap front e
  where
    front : Acquired → ℕ × Pool
    front waits = (i, p)
    front exits = (i, p)
    front (takes x r) = (x, r)

-- What `acquire` takes is the front of the queue.
acquire-takes :
    (queue : List ℕ) (size max_size i : ℕ) (p : Pool)
    → acquire (record { queue = queue; size = size; max_size = max_size }) ≡ takes i p
    → (i ∷ p.queue ≡ queue) × (p.size ≡ size - 1) × (p.max_size ≡ max_size)
unfolding acquire
acquire-takes [] size max_size i p e = elim (Bool-cases (size == 0)) [
  | inl none_left ↦ absurd (waits_not_takes (rw none_left at e))
  | inr some_left ↦ absurd (exits_not_takes (rw some_left at e))
]
acquire-takes (x ∷ queue) size max_size i p e = elim (Bool-cases (size == 0)) [
  | inl none_left ↦ absurd (waits_not_takes (rw none_left at e))
  | inr some_left ↦
      let same = takes_inj (rw some_left at e) in
      (
        ap (λ u. u.0 ∷ u.1.queue) (sym same),
        ap (λ u. u.1.size) (sym same),
        ap (λ u. u.1.max_size) (sym same),
      )
]

release-gives :
    (p : Pool) (i : ℕ) (p' : Pool)
    → release i p ≡ some p'
    → p' ≡ record p { queue = p.queue ++ i ∷ []; size = p.size + 1 }
unfolding release
release-gives p i p' e = elim (Bool-cases (p.size == p.max_size)) [
  | inl full ↦ absurd (none_not (rw full at e))
  | inr room ↦ sym (some_inj (rw room at e))
]

Step-Owned : (segments : ℕ) {s t : Handlers} → Step s t → Owned segments s → Owned segments t
Step-Owned segments {s} (acquires i p e) o =
    let (front, less, same) = acquire-takes s.pool.queue s.pool.size s.pool.max_size i p e in
    record {
      counted = omega (arith, o.counted, less, ap length front);
      bounded = same ∙ o.bounded;
      kept = omega (arith, o.kept, ap length front);
      once = λ x. omega (arith, o.once x, ap (count x) front);
    }
Step-Owned segments {s} (releases i xs ys p e r) o =
    let given = release-gives s.pool i p r in
    subst (λ p. Owned segments (record s { pool = p; held = xs ++ ys })) (sym given)
      (record {
        counted = omega (arith, o.counted, length-append s.pool.queue (i ∷ []));
        bounded = o.bounded;
        kept = omega (
          arith,
          o.kept,
          ap length e,
          length-middle i xs ys,
          length-append s.pool.queue (i ∷ []),
        );
        once = λ x. omega (
          arith,
          o.once x,
          ap (count x) e,
          count-middle x i xs ys,
          count-append x s.pool.queue (i ∷ []),
        );
      })
Step-Owned segments {s} (loses i xs ys e) o = record {
  counted = o.counted;
  bounded = o.bounded;
  kept = omega (arith, o.kept, ap length e, length-middle i xs ys);
  once = λ x. omega (arith, o.once x, ap (count x) e, count-middle x i xs ys);
}

Steps-Owned : (segments : ℕ) {s : Handlers} → Steps segments s → Owned segments s
Steps-Owned segments here = init_proxy-Owned segments
Steps-Owned segments (next run step) = Step-Owned segments step (Steps-Owned segments run)

-- In any run of the proxy's handlers, as they take segments, give them back or return without, a
-- segment that a handler holds is not on the queue of free segments, is held by no other handler and
-- was not lost.
pub segment-exclusive :
    (segments : ℕ) {s : Handlers} (i : ℕ) (xs ys : List ℕ)
    → Steps segments s
    → s.held ≡ xs ++ i ∷ ys
    → (count i s.pool.queue ≡ 0) × (count i (xs ++ ys) ≡ 0) × (count i s.lost ≡ 0)
segment-exclusive segments {s} i xs ys run e =
    let o = Steps-Owned segments run in
    let itself : count i (xs ++ i ∷ ys) ≡ 1 + count i (xs ++ ys) =
      count-middle i i xs ys ∙ rw (eq→== i i refl) refl in
    let all : count i s.pool.queue + (1 + count i (xs ++ ys)) + count i s.lost ≤ 1 =
      omega (arith, o.once i, ap (count i) e, itself) in
    (omega arith, omega arith, omega arith)

-- In any run of the proxy's handlers, a handler that gives its segment back does not wait: the
-- segment goes to the end of the queue at once.
release-never_waits :
    (segments : ℕ) {s : Handlers} (i : ℕ) (xs ys : List ℕ)
    → Steps segments s
    → s.held ≡ xs ++ i ∷ ys
    → release i s.pool
      ≡ some (record s.pool { queue = s.pool.queue ++ i ∷ []; size = s.pool.size + 1 })
unfolding release
release-never_waits segments {s} i xs ys run e =
    let o = Steps-Owned segments run in
    let room : s.pool.size < s.pool.max_size =
      omega (arith, o.kept, o.counted, o.bounded, ap length e, length-middle i xs ys) in
    rw (ne→== s.pool.size s.pool.max_size (omega arith)) refl

acquire-stocked :
    (queue : List ℕ) (size max_size : ℕ)
    → (size == 0) ≡ false
    → acquire (record { queue = queue; size = size; max_size = max_size }) ≡ waits
    → ⊥
unfolding acquire
acquire-stocked [] size max_size some_left e = exits_not_waits (rw some_left at e)
acquire-stocked (x ∷ queue) size max_size some_left e = takes_not_waits (rw some_left at e)

-- In any run of the proxy's handlers, a handler waits for a segment exactly when as many segments as
-- there are at all are held or were lost by handlers that returned without giving theirs back.
pub acquire-waits :
    (segments : ℕ) {s : Handlers}
    → Steps segments s
    → (acquire s.pool ≡ waits) ↔ (length s.held + length s.lost ≡ segments)
unfolding acquire
acquire-waits segments {s} run =
    let o = Steps-Owned segments run in
    (
      (λ e. elim (Bool-cases (s.pool.size == 0)) [
        | inl none_left ↦ omega (arith, o.kept, o.counted, ==→eq s.pool.size 0 none_left)
        | inr some_left ↦
            absurd (acquire-stocked s.pool.queue s.pool.size s.pool.max_size some_left e)
      ]),
      (λ gone. rw (eq→== s.pool.size 0 (omega (arith, o.kept, o.counted))) refl),
    )
