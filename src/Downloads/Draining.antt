-- ===== src/Downloads/Draining.antt =====
-- When the threads of proj1/multithreadgetfile/gfclient_download.c have all ended, every request was
-- taken.
use native.Mathlib.Nat.{mul_comm}
use mathlib.Core.List.{append_assoc, append-nil}
use cs8803_introduction_to_o.Common.{
  total, total-set, total-same, set_at, bind-ok, ℕ, suc, ◌+◌, ◌*◌, ◌<◌, ◌≤◌, ◌≡◌, ◌≢◌, refl, sym,
  ap, ◌∙◌, subst, ◌⊎◌, inl, inr, Bool, List, [], ◌∷◌, ◌++◌, ◌==◌, ltb, length, length-append, ok,
  ok_injective, Bool-cases, ne→==, lt→ltb, le→ltb, ltb→lt, ltb_false→le, arith,
}
use cs8803_introduction_to_o.Getfile.Download.{Made, local_path, open_file}
use cs8803_introduction_to_o.Downloads.{
  Worker, looping, ended, fetching, Program, start, Answer, worker_turn, Runs, here, next,
}

looping_not_ended : {m n : ℕ} → looping m ≡ ended n → ⊥
looping_not_ended e = cc

fetching_not_ended : {m n counter : ℕ} {path : List ℕ} → fetching m counter path ≡ ended n → ⊥
fetching_not_ended e = cc

cons_not_nil : {path : List ℕ} {paths : List (List ℕ)} → path ∷ paths ≡ [] → ⊥
cons_not_nil e = cc

pub queue-cases :
    (q : List (List ℕ)) → (q ≡ []) ⊎ ((path : List ℕ) × (rest : List (List ℕ)) × (q ≡ path ∷ rest))
queue-cases [] = inl refl
queue-cases (path ∷ rest) = inr (path, rest, refl)

-- The requests that a thread has taken.
abbrev used : Worker → ℕ
used (looping rounds) = rounds
used (ended rounds) = rounds
used (fetching rounds counter path) = suc rounds

module _ (nrequests : ℕ) (mkdir : List ℕ → Made)
    (perform : (counter : ℕ) → (path : List ℕ) → Answer) (nthreads : ℕ)
    (requests : List (List ℕ)) where
  -- Why a thread has ended.
  abbrev IsOver : Worker → List (List ℕ) → Type 0
  IsOver (ended rounds) workq = (rounds ≡ nrequests) ⊎ (workq ≡ [])
  IsOver (looping rounds) workq = rounds ≤ nrequests
  IsOver (fetching rounds counter path) workq = rounds < nrequests

  IsOver-pop :
      (w : Worker) (path : List ℕ) (workq : List (List ℕ))
      → IsOver w (path ∷ workq)
      → IsOver w workq
  IsOver-pop (ended rounds) path workq (inl all) = inl all
  IsOver-pop (ended rounds) path workq (inr none_left) = absurd (cons_not_nil none_left)
  IsOver-pop (looping rounds) path workq over = over
  IsOver-pop (fetching rounds counter p) path workq over = over

  record Sound (workq taken : List (List ℕ)) (ws : ℕ → Worker) : Type 0 where
    in_order : taken ++ workq ≡ requests
    counted : length taken ≡ total used ws nthreads
    over : (i : ℕ) → i < nthreads → IsOver (ws i) workq
    unborn : (i : ℕ) → nthreads ≤ i → ws i ≡ ended 0

  abbrev IsSound : Program → Type 0
  IsSound s = Sound s.workq s.taken s.workers

  -- A thread goes on, with what it has taken.
  goes_on :
      (i : ℕ) (w w' : Worker) (workq workq' taken taken' : List (List ℕ)) (ws : ℕ → Worker)
      → i < nthreads
      → ws i ≡ w
      → Sound workq taken ws
      → taken' ++ workq' ≡ requests
      → length taken' + used w ≡ length taken + used w'
      → IsOver w' workq'
      → ((j : ℕ) → IsOver (ws j) workq → IsOver (ws j) workq')
      → Sound workq' taken' (set_at ws i w')
  goes_on i w w' workq workq' taken taken' ws less e f order count over' others = record {
    in_order = order;
    counted = omega (arith, count, f.counted, total-set used ws i w' nthreads less, ap used e);
    over = λ j born. elim (Bool-cases (j == i)) [
      | inl same ↦ rw same over'
      | inr other ↦ rw other (others j (f.over j born))
    ];
    unborn = λ j late. rw (ne→== j i (omega arith)) (f.unborn j late);
  }

  -- A thread that has not ended was started.
  born : (i : ℕ) (s : Program) → IsSound s → (s.workers i ≢ ended 0) → i < nthreads
  born i s f alive = elim (Bool-cases (ltb i nthreads)) [
    | inl less ↦ ltb→lt i nthreads less
    | inr late ↦ absurd (alive (f.unborn i (ltb_false→le i nthreads late)))
  ]

  looping-Sound :
      (fopen_ok : Bool) (i rounds : ℕ) (s : Program) {t : Program}
      → s.workers i ≡ looping rounds
      → worker_turn nrequests mkdir perform fopen_ok i (looping rounds) s ≡ ok t
      → IsSound s
      → IsSound t
  unfolding worker_turn
  looping-Sound fopen_ok i rounds s e p f =
      let less = born i s f (λ over. looping_not_ended (sym e ∙ over)) in
      let so_far : rounds ≤ nrequests = subst (λ w. IsOver w s.workq) e (f.over i less) in
      elim (Bool-cases (ltb rounds nrequests)) [
        | inr all_done ↦ subst IsSound (ok_injective (rw all_done at p)) (
            goes_on i (looping rounds) (ended rounds) s.workq s.workq s.taken s.taken s.workers less
              e f f.in_order refl (inl (omega (arith, ltb_false→le rounds nrequests all_done)))
              (λ j over. over))
        | inl more ↦ elim (queue-cases s.workq) [
          | inl none_left ↦ subst IsSound (ok_injective (rw (more, none_left) at p)) (
              goes_on i (looping rounds) (ended rounds) s.workq s.workq s.taken s.taken s.workers
                less e f f.in_order refl (inr none_left) (λ j over. over))
          | inr (path, rest, some_left) ↦
              let (local, named, q) =
                bind-ok (local_path s.counter path) _ (rw (more, some_left) at p) in
              let (opened, made, r) = bind-ok (open_file mkdir fopen_ok local) _ q in
              subst IsSound (ok_injective r) (
                goes_on i (looping rounds) (fetching rounds s.counter path) s.workq rest s.taken
                  (s.taken ++ path ∷ []) s.workers less e f
                  (append_assoc s.taken (path ∷ []) rest ∙ rw some_left at f.in_order)
                  (omega (arith, length-append s.taken (path ∷ []))) (ltb→lt rounds nrequests more)
                  (λ j over.
                    IsOver-pop (s.workers j) path rest
                      (subst (IsOver (s.workers j)) some_left over)))
        ]
      ]

  turn-Sound :
      (fopen_ok : Bool) (i : ℕ) (w : Worker) (s : Program) {t : Program}
      → s.workers i ≡ w
      → worker_turn nrequests mkdir perform fopen_ok i w s ≡ ok t
      → IsSound s
      → IsSound t
  unfolding worker_turn
  turn-Sound fopen_ok i (looping rounds) s e p f = looping-Sound fopen_ok i rounds s e p f
  turn-Sound fopen_ok i (ended rounds) s e p f = subst IsSound (ok_injective p) f
  turn-Sound fopen_ok i (fetching rounds counter path) s e p f =
      let less = born i s f (λ over. fetching_not_ended (sym e ∙ over)) in
      let so_far : rounds < nrequests = subst (λ w. IsOver w s.workq) e (f.over i less) in
      subst IsSound (ok_injective p) (
        goes_on i (fetching rounds counter path) (looping (rounds + 1)) s.workq s.workq s.taken
          s.taken s.workers less e f f.in_order (omega arith) (omega arith) (λ j over. over))

  start-Sound : IsSound (start nthreads requests)
  start-Sound = record {
    in_order = refl;
    counted = sym (
        total-same used (start nthreads requests).workers 0 nthreads
          (λ i less. rw (lt→ltb i nthreads less) refl)
        ∙ omega arith);
    over = λ i less. rw (lt→ltb i nthreads less) (omega arith);
    unborn = λ i late. rw (le→ltb i nthreads late) refl;
  }

  runs-Sound : {s : Program} → Runs nrequests mkdir perform (start nthreads requests) s → IsSound s
  runs-Sound here = start-Sound
  runs-Sound (next {t} run fopen_ok i p) =
      turn-Sound fopen_ok i (t.workers i) t refl p (runs-Sound run)

  -- x
  pub worker_main-takes_all :
      {s : Program}
      → Runs nrequests mkdir perform (start nthreads requests) s
      → length requests ≡ nrequests * nthreads
      → 0 < nthreads
      → ((i : ℕ) → i < nthreads → (rounds : ℕ) × (s.workers i ≡ ended rounds))
      → (s.workq ≡ []) × (s.taken ≡ requests)
  worker_main-takes_all {s} run as_many some_thread all_ended =
      let f = runs-Sound run in
      elim (queue-cases s.workq) [
        | inl none_left ↦ (none_left, sym (append-nil s.taken) ∙ rw none_left at f.in_order)
        | inr (path, rest, some_left) ↦
            let full : (i : ℕ) → i < nthreads → used (s.workers i) ≡ nrequests = λ i less.
              let (rounds, e) = all_ended i less in
              elim (subst (λ w. IsOver w s.workq) e (f.over i less)) [
                | inl all ↦ ap used e ∙ all
                | inr none_left ↦ absurd (cons_not_nil (sym some_left ∙ none_left))
              ] in
            absurd (
              omega (
                arith,
                ap length f.in_order,
                length-append s.taken s.workq,
                ap length some_left,
                f.counted,
                total-same used s.workers nrequests nthreads full,
                as_many,
                mul_comm nrequests nthreads,
              ))
      ]
