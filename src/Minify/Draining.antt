-- ===== src/Minify/Draining.antt =====
-- What the threads of proj4/minifyjpeg_main.c have done once they have all ended.
use cs8803_introduction_to_o.Common.{
  set_at, bind-ok, ◌∷◌, ℕ, ◌<◌, ◌≡◌, ◌≢◌, refl, sym, ap, ◌∙◌, subst, ◌⊎◌, inl, inr, Bool, true,
  Option, some, List, [], ◌==◌, ltb, ok, ok_injective, Bool-cases, ==→eq, eq→==, lt→ltb,
}
use cs8803_introduction_to_o.CString.{str_eq}
use cs8803_introduction_to_o.Minify.{
  Request, Files, read_from_file, write_to_file, minify_via_rpc, Worker, taking, ended, reading,
  calling, writing, Program, start, worker_turn, Runs, here, next,
}
use cs8803_introduction_to_o.Minify.Readings.{
  str_eq→eq, str_eq_self, taking_not_ended, reading_not_ended, calling_not_ended, writing_not_ended,
  cons_not_nil, queue-cases, Among, read_from_file-ok, minify_via_rpc-ok,
}

module _ (rpc : List ℕ → Option (List ℕ)) (nthreads : ℕ) (files₀ : Files)
    (requests : List Request) where
  -- The service's answer for a request.
  abbrev Minified : Request → List ℕ → Type 0
  Minified r dst = (src : List ℕ) × (files₀ r.inputfilename ≡ some src) × (rpc src ≡ some dst)

  abbrev Done : Request → Files → Type 0
  Done r files = (dst : List ℕ) × Minified r dst × (files r.outputfilename ≡ some dst)

  -- No output is an input, and no two inputs have the same output.
  abbrev pub Apart : Type 0
  Apart =
      (r r' : Request)
      → Among r requests
      → Among r' requests
      → (r.outputfilename ≢ r'.inputfilename)
        × (r.outputfilename ≡ r'.outputfilename → r.inputfilename ≡ r'.inputfilename)

  abbrev Holds : Request → Worker → Type 0
  Holds r (reading r') = r ≡ r'
  Holds r (calling r' src) = r ≡ r'
  Holds r (writing r' dst) = r ≡ r'
  Holds r _ = ⊥

  abbrev pub IsRight : Worker → Type 0
  IsRight (reading r) = Among r requests
  IsRight (calling r src) = Among r requests × (files₀ r.inputfilename ≡ some src)
  IsRight (writing r dst) = Among r requests × Minified r dst
  IsRight _ = Unit {0}

  pub record Sound (s : Program) : Type 0 where
    pub source : (r : Request) → Among r requests → s.files r.inputfilename ≡ files₀ r.inputfilename
    pub queued : (r : Request) → Among r s.queue → Among r requests
    pub right : (i : ℕ) → IsRight (s.workers i)
    pub progress :
        (r : Request)
        → Among r requests
        → Among r s.queue ⊎ ((i : ℕ) × Holds r (s.workers i)) ⊎ Done r s.files
    pub drained : (i : ℕ) → i < nthreads → s.workers i ≡ ended → s.queue ≡ []

  set-IsRight :
      (ws : ℕ → Worker) (i : ℕ) (w : Worker)
      → ((j : ℕ) → IsRight (ws j))
      → IsRight w
      → (j : ℕ) → IsRight (set_at ws i w j)
  set-IsRight ws i w all one j = elim (Bool-cases (j == i)) [
    | inl e ↦ rw e one
    | inr e ↦ rw e (all j)
  ]

  set-Holds :
      (ws : ℕ → Worker) (i : ℕ) (w : Worker) (r : Request)
      → Holds r w
      → (j : ℕ) × Holds r (set_at ws i w j)
  set-Holds ws i w r h = (i, rw (eq→== i i refl) h)

  -- Another thread's request stays with it.
  keep-Holds :
      (ws : ℕ → Worker) (i : ℕ) (w w' : Worker) (r : Request)
      → ws i ≡ w
      → (j : ℕ) → Holds r (ws j)
      → Holds r w ⊎ ((j : ℕ) × Holds r (set_at ws i w' j))
  keep-Holds ws i w w' r e j h = elim (Bool-cases (j == i)) [
    | inl same ↦ inl (subst (Holds r) (ap ws (==→eq j i same) ∙ e) h)
    | inr other ↦ inr (j, rw other h)
  ]

  set-ended :
      (ws : ℕ → Worker) (i : ℕ) (w : Worker) (queue : List Request)
      → (w ≡ ended → queue ≡ [])
      → ((j : ℕ) → j < nthreads → ws j ≡ ended → queue ≡ [])
      → (j : ℕ) → j < nthreads
      → set_at ws i w j ≡ ended
      → queue ≡ []
  set-ended ws i w queue one all j less e = elim (Bool-cases (j == i)) [
    | inl same ↦ one (rw same at e)
    | inr other ↦ all j less (rw other at e)
  ]

  start-Sound : Sound (start nthreads files₀ requests)
  start-Sound = record {
    source = λ r among. refl;
    queued = λ r among. among;
    right = λ i. elim (Bool-cases (ltb i nthreads)) [ inl e ↦ rw e tt | inr e ↦ rw e tt ];
    progress = λ r among. inl among;
    drained = λ i less e. absurd (taking_not_ended (rw (lt→ltb i nthreads less) at e));
  }

  abbrev Progress : Request → List Request → (ℕ → Worker) → Files → Type 0
  Progress r queue ws files = Among r queue ⊎ ((i : ℕ) × Holds r (ws i)) ⊎ Done r files

  -- A turn of one thread leaves the requests of the others where they are.
  Progress-after :
      (i : ℕ) (w w' : Worker) (s : Program) (queue : List Request) (files : Files) (r : Request)
      → s.workers i ≡ w
      → Progress r s.queue s.workers s.files
      → (Among r s.queue → Progress r queue (set_at s.workers i w') files)
      → (Holds r w → Progress r queue (set_at s.workers i w') files)
      → (Done r s.files → Done r files)
      → Progress r queue (set_at s.workers i w') files
  Progress-after i w w' s queue files r e before of_queue of_thread of_done = elim before [
    | inl waiting ↦ of_queue waiting
    | inr (inl (j, holds)) ↦ elim (keep-Holds s.workers i w w' r e j holds) [
      | inl h ↦ of_thread h
      | inr kept ↦ inr (inl kept)
    ]
    | inr (inr done) ↦ inr (inr (of_done done))
  ]

  -- A thread that goes on with its request.
  moves-Sound :
      (i : ℕ) (w w' : Worker) (s : Program)
      → s.workers i ≡ w
      → Sound s
      → IsRight w'
      → ((r : Request) → Holds r w → Holds r w')
      → w' ≢ ended
      → Sound (record s { workers = set_at s.workers i w' })
  moves-Sound i w w' s e f right' holds' not_ended = record {
    source = f.source;
    queued = f.queued;
    right = set-IsRight s.workers i w' f.right right';
    progress = λ r among.
        Progress-after i w w' s s.queue s.files r e (f.progress r among) inl
          (λ h. inr (inl (set-Holds s.workers i w' r (holds' r h)))) (λ done. done);
    drained = set-ended s.workers i w' s.queue (λ same. absurd (not_ended same)) f.drained;
  }

  -- A thread that finds the queue empty, and one that takes a request.
  ends-Sound :
      (i : ℕ) (s : Program)
      → s.workers i ≡ taking
      → s.queue ≡ []
      → Sound s
      → Sound (record s { queue = []; workers = set_at s.workers i ended })
  ends-Sound i s e none_left f = record {
    source = f.source;
    queued = rw none_left at f.queued;
    right = set-IsRight s.workers i ended f.right tt;
    progress = λ r among.
        Progress-after i taking ended s [] s.files r e (f.progress r among)
          (λ waiting. inl (subst (Among r) none_left waiting)) (λ h. elim h [ ]) (λ done. done);
    drained = set-ended s.workers i ended [] (λ same. refl) (λ j less done. refl);
  }

  takes-Sound :
      (i : ℕ) (s : Program) (r₀ : Request) (rest : List Request)
      → s.workers i ≡ taking
      → s.queue ≡ r₀ ∷ rest
      → Sound s
      → Sound (record s { queue = rest; workers = set_at s.workers i (reading r₀) })
  takes-Sound i s r₀ rest e some_left f = record {
    source = f.source;
    queued = λ r among. f.queued r (subst (Among r) (sym some_left) (inr among));
    right =
        set-IsRight s.workers i (reading r₀) f.right
          (f.queued r₀ (subst (Among r₀) (sym some_left) (inl refl)));
    progress = λ r among.
        Progress-after i taking (reading r₀) s rest s.files r e (f.progress r among)
          (λ waiting. elim (subst (Among r) some_left waiting) [
            | inl first ↦ inr (inl (set-Holds s.workers i (reading r₀) r first))
            | inr later ↦ inl later
          ])
          (λ h. elim h [ ]) (λ done. done);
    drained =
        set-ended s.workers i (reading r₀) rest (λ same. absurd (reading_not_ended same))
          (λ j less done. absurd (cons_not_nil (sym some_left ∙ f.drained j less done)));
  }

  not_written :
      (files : Files) (out name bytes : List ℕ)
      → out ≢ name
      → write_to_file true files out bytes name ≡ files name
  unfolding write_to_file
  not_written files out name bytes other = elim (Bool-cases (str_eq name out)) [
    | inl same ↦ absurd (other (sym (str_eq→eq name out same)))
    | inr e ↦ rw e refl
  ]

  written-Done :
      (files : Files) (r r₀ : Request) (dst : List ℕ)
      → r₀.outputfilename ≡ r.outputfilename
      → r₀.inputfilename ≡ r.inputfilename
      → Minified r₀ dst
      → Done r (write_to_file true files r₀.outputfilename dst)
  unfolding write_to_file
  written-Done files r r₀ dst same_out same_in (src, found, given) = (
    dst,
    (src, ap files₀ (sym same_in) ∙ found, given),
    rw (same_out, str_eq_self r.outputfilename) refl,
  )

  module _ (apart : Apart) where
    still-Done :
        (files : Files) (r r₀ : Request) (dst : List ℕ)
        → Among r requests
        → Among r₀ requests
        → Minified r₀ dst
        → Done r files
        → Done r (write_to_file true files r₀.outputfilename dst)
    unfolding write_to_file
    still-Done files r r₀ dst among among₀ made (d, made', written) =
        elim (Bool-cases (str_eq r.outputfilename r₀.outputfilename)) [
          | inl e ↦
              let same = sym (str_eq→eq r.outputfilename r₀.outputfilename e) in
              written-Done files r r₀ dst same ((apart r₀ r among₀ among).1 same) made
          | inr e ↦ (d, made', rw e written)
        ]

    writes-Sound :
        (i : ℕ) (s : Program) (r₀ : Request) (dst : List ℕ)
        → s.workers i ≡ writing r₀ dst
        → Among r₀ requests
        → Minified r₀ dst
        → Sound s
        → Sound (record s {
          files = write_to_file true s.files r₀.outputfilename dst;
          workers = set_at s.workers i taking;
        })
    writes-Sound i s r₀ dst e among₀ made f = record {
      source = λ r among.
          not_written s.files r₀.outputfilename r.inputfilename dst ((apart r₀ r among₀ among).0)
          ∙ f.source r among;
      queued = f.queued;
      right = set-IsRight s.workers i taking f.right tt;
      progress = λ r among.
          Progress-after i (writing r₀ dst) taking s s.queue
            (write_to_file true s.files r₀.outputfilename dst) r e (f.progress r among) inl
            (λ h. inr (
              inr (
                written-Done s.files r r₀ dst (ap (λ u. u.outputfilename) (sym h))
                  (ap (λ u. u.inputfilename) (sym h)) made)))
            (still-Done s.files r r₀ dst among among₀ made);
      drained =
          set-ended s.workers i taking s.queue (λ same. absurd (taking_not_ended same)) f.drained;
    }

    turn-Sound :
        (room : Bool) (i : ℕ) (w : Worker) (s : Program) {t : Program}
        → s.workers i ≡ w
        → worker_turn rpc room true i w s ≡ ok t
        → Sound s
        → Sound t
    unfolding worker_turn
    turn-Sound room i taking s e p f = elim (queue-cases s.queue) [
      | inl none_left ↦
          subst Sound (ok_injective (rw none_left at p)) (ends-Sound i s e none_left f)
      | inr (r₀, rest, some_left) ↦
          subst Sound (ok_injective (rw some_left at p)) (takes-Sound i s r₀ rest e some_left f)
    ]
    turn-Sound room i ended s e p f = subst Sound (ok_injective p) f
    turn-Sound room i (reading r₀) s e p f =
        let (src, got, q) = bind-ok (read_from_file room s.files r₀.inputfilename) _ p in
        let among₀ : Among r₀ requests = subst IsRight e (f.right i) in
        let found : files₀ r₀.inputfilename ≡ some src =
          sym (f.source r₀ among₀) ∙ read_from_file-ok room s.files r₀.inputfilename src got in
        subst Sound (ok_injective q) (
          moves-Sound i (reading r₀) (calling r₀ src) s e f (among₀, found) (λ r h. h)
            calling_not_ended)
    turn-Sound room i (calling r₀ src) s e p f =
        let (dst, got, q) = bind-ok (minify_via_rpc rpc src) _ p in
        let (among₀, found) : Among r₀ requests × (files₀ r₀.inputfilename ≡ some src) =
          subst IsRight e (f.right i) in
        subst Sound (ok_injective q) (
          moves-Sound i (calling r₀ src) (writing r₀ dst) s e f
            (among₀, (src, found, minify_via_rpc-ok rpc src dst got)) (λ r h. h) writing_not_ended)
    turn-Sound room i (writing r₀ dst) s e p f =
        let (among₀, made) : Among r₀ requests × Minified r₀ dst = subst IsRight e (f.right i) in
        subst Sound (ok_injective p) (writes-Sound i s r₀ dst e among₀ made f)

    pub runs-Sound : {s : Program} → Runs rpc (start nthreads files₀ requests) s → Sound s
    runs-Sound here = start-Sound
    runs-Sound (next {t} run room i p) = turn-Sound room i (t.workers i) t refl p (runs-Sound run)

    -- A workload in which no output name is an input name and no two different inputs have the same
    -- output, at least one thread, outputs that can all be opened, and any interleaving of the
    -- threads: when every thread has ended, the output file of each request holds the service's
    -- answer for what the input file held at the start.
    pub worker_main-minifies_all :
        {s : Program} (r : Request)
        → Runs rpc (start nthreads files₀ requests) s
        → 0 < nthreads
        → ((i : ℕ) → s.workers i ≡ ended)
        → Among r requests
        → (src : List ℕ) × (dst : List ℕ) × (files₀ r.inputfilename ≡ some src)
          × (rpc src ≡ some dst)
          × (s.files r.outputfilename ≡ some dst)
    worker_main-minifies_all {s} r run some_thread all_ended among =
        let f = runs-Sound run in
        elim (f.progress r among) [
          | inl waiting ↦ elim (subst (Among r) (f.drained 0 some_thread (all_ended 0)) waiting) [ ]
          | inr (inl (i, holds)) ↦ elim (subst (Holds r) (all_ended i) holds) [ ]
          | inr (inr (dst, (src, found, given), written)) ↦ (src, dst, found, given, written)
        ]
