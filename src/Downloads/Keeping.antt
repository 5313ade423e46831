-- ===== src/Downloads/Keeping.antt =====
-- Which local files of proj1/multithreadgetfile/gfclient_download.c are there in the end.
use Prim.Native.Nat.{zero, suc}
use cs8803_introduction_to_o.Common.{
  set_at, bind-ok, ℕ, ◌+◌, ◌*◌, ◌<◌, ◌≡◌, refl, sym, ap, ◌∙◌, subst, ◌⊎◌, inl, inr, Bool, true,
  some, some_inj, none_not, List, [], ◌∷◌, ◌++◌, ◌==◌, ltb, length, get_elem?, length-append, ok,
  ok_injective, Bool-cases, ==→eq, eq→==, ne→==, ==_false→ne, arith,
}
use cs8803_introduction_to_o.Getfile.Download.{Made, local_path, open_file}
use cs8803_introduction_to_o.Downloads.{
  Worker, looping, ended, fetching, Program, start, Answer, stays, worker_turn, Runs, here, next,
}
use cs8803_introduction_to_o.Downloads.Draining.{queue-cases, worker_main-takes_all}

module _ {ℓ} {A : Type ℓ} where
  get_elem?-append :
      (xs ys : List A) (n : ℕ) (a : A) → get_elem? xs n ≡ some a → get_elem? (xs ++ ys) n ≡ some a
  get_elem?-append [] ys n a e = absurd (none_not e)
  get_elem?-append (x ∷ xs) ys zero a e = e
  get_elem?-append (x ∷ xs) ys (suc n) a e = get_elem?-append xs ys n a e

  get_elem?-bound : (xs : List A) (n : ℕ) (a : A) → get_elem? xs n ≡ some a → n < length xs
  get_elem?-bound [] n a e = absurd (none_not e)
  get_elem?-bound (x ∷ xs) zero a e = omega arith
  get_elem?-bound (x ∷ xs) (suc n) a e = omega (arith, get_elem?-bound xs n a e)

  get_elem?-last : (xs : List A) (y : A) → get_elem? (xs ++ y ∷ []) (length xs) ≡ some y
  get_elem?-last [] y = refl
  get_elem?-last (x ∷ xs) y = get_elem?-last xs y

  get_elem?-more :
      (xs : List A) (y : A) (n : ℕ) (a : A)
      → get_elem? (xs ++ y ∷ []) n ≡ some a
      → (get_elem? xs n ≡ some a) ⊎ ((n ≡ length xs) × (a ≡ y))
  get_elem?-more [] y zero a e = inr (refl, sym (some_inj e))
  get_elem?-more [] y (suc n) a e = absurd (none_not e)
  get_elem?-more (x ∷ xs) y zero a e = inl e
  get_elem?-more (x ∷ xs) y (suc n) a e = elim (get_elem?-more xs y n a e) [
    | inl old ↦ inl old
    | inr (last, same) ↦ inr (ap suc last, same)
  ]

module _ (nrequests : ℕ) (mkdir : List ℕ → Made)
    (perform : (counter : ℕ) → (path : List ℕ) → Answer) where
  -- A thread is at this request, and the request is the one of that number.
  abbrev IsAt : ℕ → Worker → Type 0
  IsAt n (fetching rounds counter path) = n ≡ counter
  IsAt n _ = ⊥

  abbrev IsRight : List (List ℕ) → Worker → Type 0
  IsRight taken (fetching rounds counter path) = get_elem? taken counter ≡ some path
  IsRight taken _ = Unit {0}

  IsRight-append :
      (taken more : List (List ℕ)) (w : Worker) → IsRight taken w → IsRight (taken ++ more) w
  IsRight-append taken more (fetching rounds counter path) right =
      get_elem?-append taken more counter path right
  IsRight-append taken more (looping rounds) right = tt
  IsRight-append taken more (ended rounds) right = tt

  record Kept (s : Program) : Type 0 where
    numbered : s.counter ≡ length s.taken
    right : (i : ℕ) → IsRight s.taken (s.workers i)
    settled :
        (n : ℕ) (path : List ℕ)
        → get_elem? s.taken n ≡ some path
        → (s.kept n ≡ stays (perform n path)) ⊎ ((i : ℕ) × IsAt n (s.workers i))

  set-IsRight :
      (ws : ℕ → Worker) (i : ℕ) (w : Worker) (taken : List (List ℕ))
      → ((j : ℕ) → IsRight taken (ws j))
      → IsRight taken w
      → (j : ℕ) → IsRight taken (set_at ws i w j)
  set-IsRight ws i w taken all one j = elim (Bool-cases (j == i)) [
    | inl e ↦ rw e one
    | inr e ↦ rw e (all j)
  ]

  keep-IsAt :
      (ws : ℕ → Worker) (i : ℕ) (w w' : Worker) (n : ℕ)
      → ws i ≡ w
      → (j : ℕ) → IsAt n (ws j)
      → IsAt n w ⊎ ((j : ℕ) × IsAt n (set_at ws i w' j))
  keep-IsAt ws i w w' n e j h = elim (Bool-cases (j == i)) [
    | inl same ↦ inl (subst (IsAt n) (ap ws (==→eq j i same) ∙ e) h)
    | inr other ↦ inr (j, rw other h)
  ]

  ends-Kept :
      (i rounds : ℕ) (s : Program)
      → s.workers i ≡ looping rounds
      → Kept s
      → Kept (record s { workers = set_at s.workers i (ended rounds) })
  ends-Kept i rounds s e f = record {
    numbered = f.numbered;
    right = set-IsRight s.workers i (ended rounds) s.taken f.right tt;
    settled = λ n path found. elim (f.settled n path found) [
      | inl done ↦ inl done
      | inr (j, at_it) ↦ elim (keep-IsAt s.workers i (looping rounds) (ended rounds) n e j at_it) [
        | inl h ↦ elim h [ ]
        | inr kept ↦ inr kept
      ]
    ];
  }

  takes-Kept :
      (i rounds : ℕ) (path : List ℕ) (workq : List (List ℕ)) (s : Program)
      → s.workers i ≡ looping rounds
      → Kept s
      → Kept (record s {
        workq = workq;
        counter = s.counter + 1;
        kept = set_at s.kept s.counter true;
        taken = s.taken ++ path ∷ [];
        workers = set_at s.workers i (fetching rounds s.counter path);
      })
  takes-Kept i rounds path workq s e f = record {
    numbered = omega (arith, f.numbered, length-append s.taken (path ∷ []));
    right =
        set-IsRight s.workers i (fetching rounds s.counter path) (s.taken ++ path ∷ [])
          (λ j. IsRight-append s.taken (path ∷ []) (s.workers j) (f.right j))
          (rw f.numbered (get_elem?-last s.taken path));
    settled = λ n p found. elim (get_elem?-more s.taken path n p found) [
      | inr (last, same) ↦ inr (i, rw (eq→== i i refl) (last ∙ sym f.numbered))
      | inl old ↦ elim (f.settled n p old) [
        | inl done ↦ inl (
            rw (ne→== n s.counter (omega (arith, get_elem?-bound s.taken n p old, f.numbered)))
              done)
        | inr (j, at_it) ↦
            elim (keep-IsAt s.workers i (looping rounds) (fetching rounds s.counter path) n e j
              at_it) [ inl h ↦ elim h [ ] | inr kept ↦ inr kept ]
      ]
    ];
  }

  fetched-Kept :
      (i rounds counter : ℕ) (path : List ℕ) (s : Program)
      → s.workers i ≡ fetching rounds counter path
      → Kept s
      → Kept (record s {
        kept = set_at s.kept counter (stays (perform counter path));
        workers = set_at s.workers i (looping (rounds + 1));
      })
  fetched-Kept i rounds counter path s e f =
      let its : get_elem? s.taken counter ≡ some path = subst (IsRight s.taken) e (f.right i) in
      record {
        numbered = f.numbered;
        right = set-IsRight s.workers i (looping (rounds + 1)) s.taken f.right tt;
        settled = λ n p found. elim (Bool-cases (n == counter)) [
          | inl same ↦
              let same_path : path ≡ p =
                some_inj (sym its ∙ ap (get_elem? s.taken) (sym (==→eq n counter same)) ∙ found) in
              inl (rw (same, ==→eq n counter same, same_path) refl)
          | inr other ↦ elim (f.settled n p found) [
            | inl done ↦ inl (rw other done)
            | inr (j, at_it) ↦
                elim (keep-IsAt s.workers i (fetching rounds counter path) (looping (rounds + 1)) n
                  e j at_it) [
                    | inl here_now ↦ absurd (==_false→ne n counter other here_now)
                    | inr kept ↦ inr kept
                  ]
          ]
        ];
      }

  turn-Kept :
      (fopen_ok : Bool) (i : ℕ) (w : Worker) (s : Program) {t : Program}
      → s.workers i ≡ w
      → worker_turn nrequests mkdir perform fopen_ok i w s ≡ ok t
      → Kept s
      → Kept t
  unfolding worker_turn
  turn-Kept fopen_ok i (ended rounds) s e p f = subst Kept (ok_injective p) f
  turn-Kept fopen_ok i (fetching rounds counter path) s e p f =
      subst Kept (ok_injective p) (fetched-Kept i rounds counter path s e f)
  turn-Kept fopen_ok i (looping rounds) s e p f = elim (Bool-cases (ltb rounds nrequests)) [
    | inr all_done ↦ subst Kept (ok_injective (rw all_done at p)) (ends-Kept i rounds s e f)
    | inl more ↦ elim (queue-cases s.workq) [
      | inl none_left ↦
          subst Kept (ok_injective (rw (more, none_left) at p)) (ends-Kept i rounds s e f)
      | inr (path, rest, some_left) ↦
          let (local, named, q) =
            bind-ok (local_path s.counter path) _ (rw (more, some_left) at p) in
          let (opened, made, r) = bind-ok (open_file mkdir fopen_ok local) _ q in
          subst Kept (ok_injective r) (takes-Kept i rounds path rest s e f)
    ]
  ]

  module _ (nthreads : ℕ) (requests : List (List ℕ)) where
    start-Kept : Kept (start nthreads requests)
    start-Kept = record {
      numbered = refl;
      right = λ i. elim (Bool-cases (ltb i nthreads)) [ inl e ↦ rw e tt | inr e ↦ rw e tt ];
      settled = λ n path found. absurd (none_not found);
    }

    runs-Kept : {s : Program} → Runs nrequests mkdir perform (start nthreads requests) s → Kept s
    runs-Kept here = start-Kept
    runs-Kept (next {t} run fopen_ok i p) =
        turn-Kept fopen_ok i (t.workers i) t refl p (runs-Kept run)

    -- The threads of the multithreaded download program, at least one, on a queue of as many
    -- requests as there are rounds for all of them, in any interleaving: when every thread has
    -- ended, the queue is empty, every request was taken once and in the queue's order, and the
    -- local file of each request is there exactly if gfc_perform did not fail for it and its status
    -- is GF_OK.
    pub worker_main-downloads_all :
        {s : Program} (n : ℕ) (path : List ℕ)
        → Runs nrequests mkdir perform (start nthreads requests) s
        → length requests ≡ nrequests * nthreads
        → 0 < nthreads
        → ((i : ℕ) → (rounds : ℕ) × (s.workers i ≡ ended rounds))
        → get_elem? requests n ≡ some path
        → (s.workq ≡ []) × (s.taken ≡ requests) × (s.kept n ≡ stays (perform n path))
    worker_main-downloads_all {s} n path run as_many some_thread all_ended found =
        let (none_left, all_taken) =
          worker_main-takes_all nrequests mkdir perform nthreads requests run as_many some_thread
            (λ i less. all_ended i) in
        let f = runs-Kept run in
        (
          none_left,
          all_taken,
          elim (f.settled n path (rw all_taken found)) [
            | inl done ↦ done
            | inr (i, at_it) ↦ elim (subst (IsAt n) ((all_ended i).1) at_it) [ ]
          ],
        )
