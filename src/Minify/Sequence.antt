-- ===== src/Minify/Sequence.antt =====
-- The threads of proj4/minifyjpeg_main.c leave what one loop over the requests leaves.
use mathlib.Core.Path.{fun_ext}
use cs8803_introduction_to_o.Common.{
  ℕ, ◌<◌, ◌≤◌, ◌≡◌, ◌≢◌, refl, sym, ap, ◌∙◌, subst, ◌⊎◌, inl, inr, Bool, true, false, Option, some,
  some_inj, List, [], ◌∷◌, length, Outcome, ok, ok_injective, bind-ok, ◌>>=◌, Bool-cases, le→leb,
  true_not_false,
}
use cs8803_introduction_to_o.CString.{str_eq}
use cs8803_introduction_to_o.Minify.{
  Request, Files, read_from_file, write_to_file, minify_via_rpc, Worker, taking, ended, reading,
  calling, writing, Program, start, worker_turn, Runs, here, next,
}
use cs8803_introduction_to_o.Minify.Readings.{Among, queue-cases, str_eq→eq, str_eq_self}
use cs8803_introduction_to_o.Minify.Draining.{
  Apart, Sound, IsRight, runs-Sound, worker_main-minifies_all,
}
use cs8803_introduction_to_o.Minify.Ending.{Served}

-- The same work, without threads: one request behind the other.
pub one_by_one : (rpc : List ℕ → Option (List ℕ)) → Files → List Request → Outcome Files
one_by_one rpc files [] = ok files
one_by_one rpc files (r ∷ rs) = do
  src ← read_from_file true files r.inputfilename
  dst ← minify_via_rpc rpc src
  one_by_one rpc (write_to_file true files r.outputfilename dst) rs

abbrev NoOutput : List ℕ → List Request → Type 0
NoOutput name rs = (r : Request) → Among r rs → r.outputfilename ≢ name

ne→str_eq : (s t : List ℕ) → s ≢ t → str_eq s t ≡ false
ne→str_eq s t other = elim (Bool-cases (str_eq s t)) [
  | inl same ↦ absurd (other (str_eq→eq s t same))
  | inr e ↦ e
]

output-cases :
    (name : List ℕ) (rs : List Request)
    → ((r : Request) × Among r rs × (r.outputfilename ≡ name)) ⊎ NoOutput name rs
output-cases name [] = inr (λ r among e. elim among [ ])
output-cases name (x ∷ rs) = elim (Bool-cases (str_eq x.outputfilename name)) [
  | inl same ↦ inl (x, inl refl, str_eq→eq x.outputfilename name same)
  | inr other ↦ elim (output-cases name rs) [
    | inl (r, among, e) ↦ inl (r, inr among, e)
    | inr none_else ↦ inr (λ r among e. elim among [
      | inl it ↦ true_not_false (
          sym (str_eq_self name)
          ∙ ap (λ s. str_eq s name) (sym e ∙ ap (λ u. u.outputfilename) it)
          ∙ other)
      | inr further ↦ none_else r further e
    ])
  ]
]

write_to_file-same :
    (files : Files) (name bytes : List ℕ) → write_to_file true files name bytes name ≡ some bytes
unfolding write_to_file
write_to_file-same files name bytes = rw (str_eq_self name) refl

write_to_file-other :
    (files : Files) (name bytes n : List ℕ)
    → name ≢ n
    → write_to_file true files name bytes n ≡ files n
unfolding write_to_file
write_to_file-other files name bytes n other = rw (ne→str_eq n name (λ e. other (sym e))) refl

read_from_file-found :
    (files : Files) (name src : List ℕ)
    → files name ≡ some src
    → read_from_file true files name ≡ ok src
unfolding read_from_file
read_from_file-found files name src found = rw (read_from_file, found) refl

minify_via_rpc-fitting :
    (rpc : List ℕ → Option (List ℕ)) (src dst : List ℕ)
    → rpc src ≡ some dst
    → length dst ≤ length src
    → minify_via_rpc rpc src ≡ ok dst
unfolding minify_via_rpc
minify_via_rpc-fitting rpc src dst given fitting =
    rw (minify_via_rpc, given, le→leb (length dst) (length src) fitting) refl

module _ (rpc : List ℕ → Option (List ℕ)) (nthreads : ℕ) (files₀ : Files) (requests : List Request)
    (apart : Apart rpc nthreads files₀ requests)
    (served : Served rpc nthreads files₀ requests) where
  abbrev Answered : Request → Files → Type 0
  Answered r files =
      (src : List ℕ) × (dst : List ℕ) × (files₀ r.inputfilename ≡ some src)
      × (rpc src ≡ some dst)
      × (files r.outputfilename ≡ some dst)

  -- A request with the same output has the same answer.
  Answered-shared :
      (r r' : Request) (files : Files)
      → Among r requests
      → Among r' requests
      → r.outputfilename ≡ r'.outputfilename
      → Answered r files
      → Answered r' files
  Answered-shared r r' files among among' e (src, dst, found, given, written) =
      let same : r.inputfilename ≡ r'.inputfilename = (apart r r' among among').1 e in
      (src, dst, ap files₀ (sym same) ∙ found, given, ap files (sym e) ∙ written)

  one_by_one-Answered :
      (rs : List Request) (files : Files)
      → ((r : Request) → Among r rs → Among r requests)
      → ((r : Request) → Among r requests → files r.inputfilename ≡ files₀ r.inputfilename)
      → (final : Files) × (one_by_one rpc files rs ≡ ok final)
        × ((name : List ℕ) → NoOutput name rs → final name ≡ files name)
        × ((r : Request) → Among r rs → Answered r final)
  unfolding one_by_one
  one_by_one-Answered [] files sub inputs =
      (files, refl, (λ name none_at_all. refl), (λ r among. elim among [ ]))
  one_by_one-Answered (x ∷ rs) files sub inputs =
      let among : Among x requests = sub x (inl refl) in
      let (src, dst, found, given, fitting) = served x among in
      let files' : Files = write_to_file true files x.outputfilename dst in
      let (final, run, others, answered) =
        one_by_one-Answered rs files' (λ r further. sub r (inr further))
          (λ r its.
            write_to_file-other files x.outputfilename dst r.inputfilename ((apart x r among its).0)
            ∙ inputs r its) in
      (
        final,
        rw
            (
              read_from_file-found files x.inputfilename src (inputs x among ∙ found),
              minify_via_rpc-fitting rpc src dst given fitting,
            )
            run,
        (λ name none_else.
            others name (λ r further. none_else r (inr further))
            ∙ write_to_file-other files x.outputfilename dst name (none_else x (inl refl))),
        (λ r its. elim its [
          | inr further ↦ answered r further
          | inl it ↦
              subst (λ u. Answered u final) (sym it)
                (elim (output-cases x.outputfilename rs) [
                  | inl (r', further, e) ↦
                      Answered-shared r' x final (sub r' (inr further)) among e
                        (answered r' further)
                  | inr last ↦ (
                    src,
                    dst,
                    found,
                    given,
                    others x.outputfilename last ∙ write_to_file-same files x.outputfilename dst,
                  )
                ])
        ]),
      )

  -- No thread writes to a file that is no output.
  turn-untouched :
      (room : Bool) (i : ℕ) (w : Worker) (s : Program) {t : Program}
      → (name : List ℕ) → s.workers i ≡ w
      → worker_turn rpc room true i w s ≡ ok t
      → Sound rpc nthreads files₀ requests s
      → NoOutput name requests
      → t.files name ≡ s.files name
  unfolding worker_turn
  turn-untouched room i taking s name e p f none_else = elim (queue-cases s.queue) [
    | inl none_left ↦ ap (λ (u : Program). u.files name) (sym (ok_injective (rw none_left at p)))
    | inr (r₀, rest, some_left) ↦
        ap (λ (u : Program). u.files name) (sym (ok_injective (rw some_left at p)))
  ]
  turn-untouched room i ended s name e p f none_else =
      ap (λ (u : Program). u.files name) (sym (ok_injective p))
  turn-untouched room i (reading r) s name e p f none_else =
      let (src, got, q) = bind-ok (read_from_file room s.files r.inputfilename) _ p in
      ap (λ (u : Program). u.files name) (sym (ok_injective q))
  turn-untouched room i (calling r src) s name e p f none_else =
      let (dst, got, q) = bind-ok (minify_via_rpc rpc src) _ p in
      ap (λ (u : Program). u.files name) (sym (ok_injective q))
  turn-untouched room i (writing r dst) s name e p f none_else =
      let (among, made) = subst (IsRight rpc nthreads files₀ requests) e (f.right i) in
      ap (λ (u : Program). u.files name) (sym (ok_injective p))
      ∙ write_to_file-other s.files r.outputfilename dst name (none_else r among)

  runs-untouched :
      {s : Program}
      → (name : List ℕ) → Runs rpc (start nthreads files₀ requests) s
      → NoOutput name requests
      → s.files name ≡ files₀ name
  runs-untouched name here none_else = refl
  runs-untouched name (next {t} run room i p) none_else =
      turn-untouched room i (t.workers i) t name refl p
        (runs-Sound rpc nthreads files₀ requests apart run) none_else
      ∙ runs-untouched name run none_else

  Answered-same :
      (r : Request) (files files' : Files)
      → Answered r files
      → Answered r files'
      → files r.outputfilename ≡ files' r.outputfilename
  Answered-same r files files' (src, dst, found, given, written)
        (src', dst', found', given', written') =
      let same : src ≡ src' = some_inj (sym found ∙ found') in
      written ∙ sym given ∙ ap rpc same ∙ given' ∙ sym written'

  pub worker_main-one_by_one :
      {s : Program}
      → Runs rpc (start nthreads files₀ requests) s
      → 0 < nthreads
      → ((i : ℕ) → s.workers i ≡ ended)
      → one_by_one rpc files₀ requests ≡ ok s.files
  worker_main-one_by_one {s} run some_thread all_ended =
      let (final, loop, others, answered) =
        one_by_one-Answered requests files₀ (λ r among. among) (λ r among. refl) in
      loop
      ∙ ap ok (
          fun_ext (λ name. elim (output-cases name requests) [
            | inl (r, among, e) ↦
                subst (λ n. final n ≡ s.files n) e
                  (Answered-same r final s.files (answered r among) (
                    worker_main-minifies_all rpc nthreads files₀ requests apart r run some_thread
                      all_ended among))
            | inr none_else ↦ others name none_else ∙ sym (runs-untouched name run none_else)
          ]))
