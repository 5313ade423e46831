-- ===== src/Getfile/Client/Lifetime.antt =====
-- Who may still use a request after `gfc_perform`.
use cs8803_introduction_to_o.Common.{
  ℕ, ◌+◌, ◌≡◌, ltb, length, pos, refl, false, Bool-cases, inl, inr, List, [], ◌∷◌, ◌==◌,
  if◌then◌else◌, Outcome, ok, fault, exited, starved, ◌>>=◌, ℤ,
}
use cs8803_introduction_to_o.Socket.{Recv, broken, got, Conn, close, write, minus_one, overwrite}
use cs8803_introduction_to_o.Getfile.Client.{
  Request, Done, Network, uninitialised, Analysis, stop, proceed, cleanup, finish, get_status,
  call_writer, analyse, message, after_chunk, after_analysis, connected, body, receive, perform,
}

-- Every result of the run has the property.
abbrev Always {ℓ κ} : {A : Type ℓ} → (A → Type κ) → Outcome A → Type κ
Always P (ok a) = P a
Always P fault = Unit
Always P (exited n) = Unit
Always P starved = Unit

Always->>= {ℓ κ} :
    {A : Type ℓ} {B : Type κ} (P : B → Type 0) (m : Outcome A) (f : A → Outcome B)
    → ((a : A) → Always P (f a))
    → Always P (m >>= f)
Always->>= P (ok a) f h = h a
Always->>= P fault f h = tt
Always->>= P (exited n) f h = tt
Always->>= P starved f h = tt

abbrev Freed : Done → Type 0
Freed d = d.request.live ≡ false

finish-Freed : (z : ℤ) (gfr : Request) (c : Conn) → Always Freed (finish z gfr c)
unfolding finish cleanup
finish-Freed z gfr c = elim (Bool-cases gfr.live) [ inl l ↦ rw l refl | inr d ↦ rw d tt ]

after_chunk-Freed :
    (total : ℕ) (c : Conn) (rest : Request → Outcome Done)
    → ((gfr : Request) → Always Freed (rest gfr))
    → (gfr : Request) → Always Freed (after_chunk total c rest gfr)
unfolding after_chunk
after_chunk-Freed total c rest freed gfr = elim (Bool-cases (total == gfr.file_length)) [
  | inl whole ↦ rw whole (finish-Freed (pos 0) (record gfr { bytes_received = total }) (close c))
  | inr part ↦ rw part (freed (record gfr { bytes_received = total }))
]

body-Freed :
    (rs : List Recv) (buffer : List ℕ) (total : ℕ) (gfr : Request) (c : Conn)
    → Always Freed (body rs buffer total gfr c)
unfolding body
body-Freed [] buffer total gfr c = tt
body-Freed (broken ∷ rs) buffer total gfr c = tt
body-Freed (got [] ∷ rs) buffer total gfr c =
    finish-Freed (if ltb total gfr.file_length then minus_one else pos 0) gfr (close c)
body-Freed (got (b ∷ bs) ∷ rs) buffer total gfr c =
    let buffer' = overwrite buffer (b ∷ bs) in
    let total' = total + length (b ∷ bs) in
    let rest = λ (gfr' : Request). body rs buffer' total' gfr' c in
    Always->>= Freed (call_writer buffer' 0 (length (b ∷ bs)) gfr) (after_chunk total' c rest)
      (after_chunk-Freed total' c rest (λ gfr'. body-Freed rs buffer' total' gfr' c))

after_analysis-Freed :
    (rs : List Recv) (buffer : List ℕ) (c : Conn) (a : Analysis)
    → Always Freed (after_analysis rs buffer c a)
unfolding after_analysis
after_analysis-Freed rs buffer c (stop z gfr) = finish-Freed z gfr c
after_analysis-Freed rs buffer c (proceed gfr) =
    elim (Bool-cases (gfr.bytes_received == gfr.file_length)) [
      | inl whole ↦ rw whole (finish-Freed (pos 0) gfr (close c))
      | inr part ↦ rw part (body-Freed rs buffer gfr.bytes_received gfr c)
    ]

receive-Freed :
    (rs : List Recv) (buffer junk : List ℕ) (gfr : Request) (c : Conn)
    → Always Freed (receive rs buffer junk gfr c)
unfolding receive
receive-Freed [] buffer junk gfr c = tt
receive-Freed (broken ∷ rs) buffer junk gfr c = tt
receive-Freed (got [] ∷ rs) buffer junk gfr c =
    finish-Freed (if ltb 0 gfr.file_length then minus_one else pos 0) gfr (close c)
receive-Freed (got (b ∷ bs) ∷ rs) buffer junk gfr c =
    Always->>= Freed (analyse (overwrite buffer (b ∷ bs)) (b ∷ bs) junk gfr)
      (after_analysis rs (overwrite buffer (b ∷ bs)) c)
      (after_analysis-Freed rs (overwrite buffer (b ∷ bs)) c)

-- No use of the status is possible any more.
abbrev Unusable : Done → Type 0
Unusable d = get_status d.request ≡ fault

Freed→Unusable : (r : Outcome Done) → Always Freed r → Always Unusable r
unfolding get_status
Freed→Unusable (ok d) freed = rw freed
Freed→Unusable fault freed = tt
Freed→Unusable (exited n) freed = tt
Freed→Unusable starved freed = tt

untouched : (gfr : Request) → gfr.status_text ≡ uninitialised → get_status gfr ≡ fault
unfolding get_status
untouched gfr fresh = elim (Bool-cases gfr.live) [ inl l ↦ rw (l, fresh) refl | inr d ↦ rw d ]

perform-Unusable :
    (net : Network) (rs : List Recv) (buffer junk : List ℕ) (gfr : Request)
    → gfr.status_text ≡ uninitialised
    → Always Unusable (perform net rs buffer junk gfr)
unfolding perform
perform-Unusable net rs buffer junk gfr fresh = elim (Bool-cases net.socket_ok) [
  | inr no_socket ↦ rw no_socket (untouched gfr fresh)
  | inl socket ↦ elim (Bool-cases net.host_found) [
    | inr no_host ↦ rw (socket, no_host) tt
    | inl host ↦ elim (Bool-cases net.connect_ok) [
      | inr refused ↦ rw (socket, host, refused) (untouched gfr fresh)
      | inl accepted ↦
          rw (socket, host, accepted)
            (Always->>= Unusable (message gfr.path)
              (λ m. receive rs buffer junk gfr (write net.sending m connected).1)
              λ m. Freed→Unusable _ (receive-Freed rs buffer junk gfr _))
    ]
  ]
]

Always-ok : {r : Outcome Done} {d : Done} → r ≡ ok d → Always Unusable r → Unusable d
Always-ok e always = rw e at always

-- However gfc_perform returns for a request whose status text was never set, gfc_get_status on that
-- request afterwards reads memory that was freed or never written.
pub get_status-perform :
    (net : Network) (rs : List Recv) (buffer junk : List ℕ) (gfr : Request) {d : Done}
    → gfr.status_text ≡ uninitialised
    → perform net rs buffer junk gfr ≡ ok d
    → get_status d.request ≡ fault
get_status-perform net rs buffer junk gfr fresh returned =
    Always-ok returned (perform-Unusable net rs buffer junk gfr fresh)
