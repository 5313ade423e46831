-- ===== src/Threads/Connections.antt =====
-- The connections of the multithreaded server: what is so of them in every state, and that no step
-- changes that.
use cs8803_introduction_to_o.Common.{
  set_at, ℕ, ◌≡◌, ◌≢◌, refl, sym, ap, ◌∙◌, subst, ◌⊎◌, inl, inr, Bool-cases, true, false, Option,
  none, some, some_inj, none_not, List, [], ◌∷◌, ◌++◌, ◌==◌, ==→eq, ==_false→ne, ne→==, length,
  Outcome, ok, ok_injective, bind-ok, ℤ, pos, negsuc, arith,
}
use cs8803_introduction_to_o.Socket.{Reply, Conn}
use cs8803_introduction_to_o.Getfile.Response.{gf_ok}
use cs8803_introduction_to_o.Steque.{Steque}
use cs8803_introduction_to_o.Steque.Cells.{items}
use cs8803_introduction_to_o.Threads.{
  Round, Task, Worker, waiting, ended, working, Pool, fresh, send_task, send_found, work,
}
use cs8803_introduction_to_o.Threads.Order.{IsFair}
use cs8803_introduction_to_o.Threads.Sound.{Library, send_task-all, send_task-closed}
use cs8803_introduction_to_o.Threads.Shapes.{
  In, Distinct, In-front, In-behind, In-last, Distinct-last, Distinct-middle,
}

working_inj : {a b : ℕ} → working a ≡ working b → a ≡ b
working_inj e = cc

pub ended_not_working : {job : ℕ} → ended ≡ working job → ⊥
ended_not_working e = cc

pub waiting_not_working : {job : ℕ} → waiting ≡ working job → ⊥
waiting_not_working e = cc

some_is :
    (tasks : ℕ → Option Task) (a b : ℕ) (k j : Task)
    → (b == a) ≡ true
    → set_at tasks a (some k) b ≡ some j
    → k ≡ j
some_is tasks a b k j same e = some_inj (rw same at e)

module _ (send_header : Reply → Conn → (status file_len : ℕ) → Conn)
    (send : Reply → Conn → List ℕ → ℤ × Conn) (abort : Conn → Conn) (announcement : ℕ → List ℕ)
    (lib : Library send_header send abort announcement) (content_get : Option (List ℕ) → Outcome ℤ)
    (file_of : ℕ → List ℕ) where
  -- The client has the whole answer and nothing else, or its connection is closed.
  abbrev Answered : Task → Conn → Type 0
  Answered k c =
      (fildes : ℕ)
      → content_get k.path ≡ ok (pos fildes)
      → (c.is_open ≡ false) ⊎ (c.sent ≡ announcement (length (file_of fildes)) ++ file_of fildes)

  pub work-Answered :
      (header : Reply) (rounds : List Round) (c : Conn) (k : Task) (w : Worker) (c' : Conn)
      → c ≡ fresh
      → work send_header send abort content_get file_of header rounds c k ≡ ok (w, c')
      → Answered k c'
  unfolding work send_found
  work-Answered header rounds c k w c' new out fildes found =
      let file = file_of fildes in
      let c₁ = send_header header c gf_ok (length file) in
      let (c₂, run, rest) =
        bind-ok (send_task send_header send abort rounds file (pos 0) c₁) _ (rw found at out) in
      let same : c₂ ≡ c' = ap (λ u. u.1) (ok_injective rest) in
      subst (λ u. (u.is_open ≡ false) ⊎ (u.sent ≡ announcement (length file) ++ file)) same
        (elim (Bool-cases c₁.is_open) [
          | inr closed ↦ inl (
              send_task-closed send_header send abort announcement lib rounds file (pos 0) c₁ closed
                run)
          | inl opened ↦
              elim (send_task-all send_header send abort announcement lib rounds file 0 c₁ c₂
                (omega arith) run) [
                  | inl closed ↦ inl closed
                  | inr all ↦ inr (
                      all
                      ∙ ap (λ u. u ++ file)
                          (lib.sends_header header c (length file) opened
                            ∙ ap (λ (u : Conn). u.sent ++ announcement (length file)) new))
                ]
        ])

  pub not_working :
      (header : Reply) (rounds : List Round) (c : Conn) (k : Task) (w : Worker) (c' : Conn)
      (job : ℕ)
      → work send_header send abort content_get file_of header rounds c k ≡ ok (w, c')
      → w ≡ working job
      → ⊥
  unfolding work
  not_working header rounds c k w c' job out busy =
      let (z, run, rest) = bind-ok (content_get k.path) _ out in found z rest
    where
      found :
          (z : ℤ)
          → send_found send_header send abort content_get file_of header rounds c z ≡ ok (w, c')
          → ⊥
      found (negsuc n) e = ended_not_working (ap (λ u. u.0) (ok_injective e) ∙ busy)
      found (pos fildes) e =
          let (c₂, run, rest) =
            bind-ok
              (send_task send_header send abort rounds (file_of fildes) (pos 0)
                (send_header header c gf_ok (length (file_of fildes))))
              _ e in
          waiting_not_working (ap (λ u. u.0) (ok_injective rest) ∙ busy)

  -- Every task has a context of its own, which is left alone until its worker is done with it.
  pub record Sound (s : Pool) : Type 0 where
    pub one_owner :
        (a b : ℕ) (j k : Task) → s.tasks a ≡ some j → s.tasks b ≡ some k → j.ctx ≡ k.ctx → a ≡ b
    pub known : (a : ℕ) → In a s.accepted → (k : Task) × (s.tasks a ≡ some k)
    pub distinct : Distinct s.accepted
    pub working_taken : (i a : ℕ) → s.workers i ≡ working a → In a s.taken
    pub working_once : (i j a : ℕ) → s.workers i ≡ working a → s.workers j ≡ working a → i ≡ j
    pub unfinished : (i a : ℕ) → s.workers i ≡ working a → In a s.finished → ⊥
    pub finished_taken : (a : ℕ) → In a s.finished → In a s.taken
    pub answered :
        (a : ℕ) (k : Task) → s.tasks a ≡ some k → In a s.finished → Answered k (s.conns k.ctx)
    pub untouched :
        (a : ℕ) (k : Task) → s.tasks a ≡ some k → (In a s.finished → ⊥) → s.conns k.ctx ≡ fresh
    pub unowned :
        (ctx : ℕ)
        → ((a : ℕ) (k : Task) → s.tasks a ≡ some k → k.ctx ≡ ctx → ⊥)
        → s.conns ctx ≡ fresh

  pub accepted-Sound :
      (a : ℕ) (k : Task) (q : Steque) (s : Pool)
      → IsFair s
      → Sound s
      → s.tasks a ≡ none
      → ((b : ℕ) (j : Task) → s.tasks b ≡ some j → j.ctx ≢ k.ctx)
      → Sound (record s {
        queue = q;
        tasks = set_at s.tasks a (some k);
        accepted = s.accepted ++ a ∷ [];
      })
  accepted-Sound a k q s fair f unused alone =
      let not_accepted : In a s.accepted → ⊥ = λ h. none_not (sym unused ∙ (f.known a h).1) in
      let not_taken : In a s.taken → ⊥ = λ h.
        not_accepted (subst (In a) (sym fair.in_order) (In-front a s.taken (items fair.cells) h)) in
      record {
        one_owner = λ b c j j' e e' same. elim (Bool-cases (b == a)) [
          | inl is_a ↦ elim (Bool-cases (c == a)) [
            | inl is_a' ↦ ==→eq b a is_a ∙ sym (==→eq c a is_a')
            | inr other' ↦ absurd (
                alone c j' (rw other' at e')
                  (sym same ∙ ap (λ (u : Task). u.ctx) (sym (some_is s.tasks a b k j is_a e))))
          ]
          | inr other ↦ elim (Bool-cases (c == a)) [
            | inl is_a' ↦ absurd (
                alone b j (rw other at e)
                  (same ∙ ap (λ (u : Task). u.ctx) (sym (some_is s.tasks a c k j' is_a' e'))))
            | inr other' ↦ f.one_owner b c j j' (rw other at e) (rw other' at e') same
          ]
        ];
        known = λ b h. elim (Bool-cases (b == a)) [
          | inl is_a ↦ (k, rw is_a refl)
          | inr other ↦ elim (In-last b a s.accepted h) [
            | inl before ↦ rw other (f.known b before)
            | inr e ↦ absurd (==_false→ne b a other e)
          ]
        ];
        distinct = Distinct-last a s.accepted f.distinct not_accepted;
        working_taken = f.working_taken;
        working_once = f.working_once;
        unfinished = f.unfinished;
        finished_taken = f.finished_taken;
        answered = λ b j e h. elim (Bool-cases (b == a)) [
          | inl is_a ↦
              absurd (not_taken (subst (λ u. In u s.taken) (==→eq b a is_a) (f.finished_taken b h)))
          | inr other ↦ f.answered b j (rw other at e) h
        ];
        untouched = λ b j e out. elim (Bool-cases (b == a)) [
          | inl is_a ↦
              ap (λ (u : Task). s.conns u.ctx) (sym (some_is s.tasks a b k j is_a e))
              ∙ f.unowned k.ctx (λ c j' e' same. alone c j' e' same)
          | inr other ↦ f.untouched b j (rw other at e) out
        ];
        unowned = λ ctx none_owns. f.unowned ctx (λ b j e same.
            none_owns b j
              (rw (ne→== b a (λ is_a. none_not (sym unused ∙ ap s.tasks (sym is_a) ∙ e))) e) same);
      }

  pub taken-Sound :
      (i job : ℕ) (q : Steque) (s : Pool)
      → Sound s
      → (rest : List ℕ) → s.accepted ≡ s.taken ++ job ∷ rest
      → Sound (record s {
        queue = q;
        workers = set_at s.workers i (working job);
        taken = s.taken ++ job ∷ [];
      })
  taken-Sound i job q s f rest in_order =
      let not_taken : In job s.taken → ⊥ =
        Distinct-middle job s.taken rest (subst Distinct in_order f.distinct) in
      let is_job : (a : ℕ) → working job ≡ working a → job ≡ a = λ a e. working_inj e in
      record {
        one_owner = f.one_owner;
        known = f.known;
        distinct = f.distinct;
        working_taken = λ j a e. elim (Bool-cases (j == i)) [
          | inl same ↦
              subst (λ u. In u (s.taken ++ job ∷ [])) (is_job a (rw same at e))
                (In-behind job s.taken (job ∷ []) (inl refl))
          | inr other ↦ In-front a s.taken (job ∷ []) (f.working_taken j a (rw other at e))
        ];
        working_once = λ j j' a e e'. elim (Bool-cases (j == i)) [
          | inl same ↦ elim (Bool-cases (j' == i)) [
            | inl same' ↦ ==→eq j i same ∙ sym (==→eq j' i same')
            | inr other' ↦ absurd (
                not_taken (
                  subst (λ u. In u s.taken) (sym (is_job a (rw same at e)))
                    (f.working_taken j' a (rw other' at e'))))
          ]
          | inr other ↦ elim (Bool-cases (j' == i)) [
            | inl same' ↦ absurd (
                not_taken (
                  subst (λ u. In u s.taken) (sym (is_job a (rw same' at e')))
                    (f.working_taken j a (rw other at e))))
            | inr other' ↦ f.working_once j j' a (rw other at e) (rw other' at e')
          ]
        ];
        unfinished = λ j a e h. elim (Bool-cases (j == i)) [
          | inl same ↦
              not_taken
                (subst (λ u. In u s.taken) (sym (is_job a (rw same at e))) (f.finished_taken a h))
          | inr other ↦ f.unfinished j a (rw other at e) h
        ];
        finished_taken = λ a h. In-front a s.taken (job ∷ []) (f.finished_taken a h);
        answered = f.answered;
        untouched = f.untouched;
        unowned = f.unowned;
      }

  pub finished-Sound :
      (i job : ℕ) (k : Task) (w : Worker) (c : Conn) (s : Pool)
      → Sound s
      → s.workers i ≡ working job
      → s.tasks job ≡ some k
      → ((a : ℕ) → w ≡ working a → ⊥)
      → Answered k c
      → Sound (record s {
        workers = set_at s.workers i w;
        conns = set_at s.conns k.ctx c;
        finished = job ∷ s.finished;
      })
  finished-Sound i job k w c s f busy its idle done =
      let others_ctx : (a : ℕ) (j : Task) → s.tasks a ≡ some j → a ≢ job → j.ctx ≢ k.ctx =
        λ a j e other same. other (f.one_owner a job j k e its same) in
      record {
        one_owner = f.one_owner;
        known = f.known;
        distinct = f.distinct;
        working_taken = λ j a e. elim (Bool-cases (j == i)) [
          | inl same ↦ absurd (idle a (rw same at e))
          | inr other ↦ f.working_taken j a (rw other at e)
        ];
        working_once = λ j j' a e e'. elim (Bool-cases (j == i)) [
          | inl same ↦ absurd (idle a (rw same at e))
          | inr other ↦ elim (Bool-cases (j' == i)) [
            | inl same' ↦ absurd (idle a (rw same' at e'))
            | inr other' ↦ f.working_once j j' a (rw other at e) (rw other' at e')
          ]
        ];
        unfinished = λ j a e h. elim (Bool-cases (j == i)) [
          | inl same ↦ idle a (rw same at e)
          | inr other ↦ elim h [
            | inl is_job ↦
                ==_false→ne j i other
                  (f.working_once j i a (rw other at e) (busy ∙ ap working (sym is_job)))
            | inr before ↦ f.unfinished j a (rw other at e) before
          ]
        ];
        finished_taken = λ a h. elim h [
          | inl is_job ↦ subst (λ u. In u s.taken) (sym is_job) (f.working_taken i job busy)
          | inr before ↦ f.finished_taken a before
        ];
        answered = λ a j e h. elim (Bool-cases (j.ctx == k.ctx)) [
          | inl same ↦
              let is_job : a ≡ job = f.one_owner a job j k e its (==→eq j.ctx k.ctx same) in
              let is_task : k ≡ j = some_inj (sym its ∙ ap s.tasks (sym is_job) ∙ e) in
              rw same (subst (λ u. Answered u c) is_task done)
          | inr other ↦ rw other (elim h [
            | inl is_job ↦ absurd (
                ==_false→ne j.ctx k.ctx other
                  (ap (λ (u : Task). u.ctx) (some_inj (sym e ∙ ap s.tasks is_job ∙ its))))
            | inr before ↦ f.answered a j e before
          ])
        ];
        untouched = λ a j e out.
            let other = others_ctx a j e (λ is_job. out (inl is_job)) in
            rw (ne→== j.ctx k.ctx other) (f.untouched a j e (λ h. out (inr h)));
        unowned = λ ctx none_owns.
            rw (ne→== ctx k.ctx (λ same. none_owns job k its (sym same))) (f.unowned ctx none_owns);
      }
