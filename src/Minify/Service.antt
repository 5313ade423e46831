-- ===== src/Minify/Service.antt =====
-- The image service, proj4/minifyjpeg.c and minifyjpeg_svc.c, and the client's call of it,
-- minifyjpeg_clnt.c. SunRPC and ImageMagick are parameters.
use cs8803_introduction_to_o.Common.{
  ℕ, ◌<◌, ◌%◌, ◌≡◌, refl, Bool, true, Option, none, some, List, ◌==◌, leb, if◌then◌else◌, length,
  take, take_all, Outcome, ok, fault, exited, ◌>>=◌, u32_mod, arith, Option-cases, inl, inr,
}
use cs8803_introduction_to_o.Minify.{minify_via_rpc}

-- `xdr_bytes`, which writes the number of the bytes, a `u_int`, in front of them.
pub record Xdr : Type 0 where
  pub encode : List ℕ → List ℕ
  pub decode : List ℕ → Option (List ℕ)
  pub decode-encode : (bytes : List ℕ) → length bytes < u32_mod → decode (encode bytes) ≡ some bytes

-- `svc_sendreply` with nothing and with a result, `svcerr_noproc`, `svcerr_decode` and
-- `svcerr_systemerr`.
pub data Answer : Type 0 where
  nothing no_procedure undecodable system_error : Answer
  result : List ℕ → Answer

minifyjpeg_proc : ℕ
minifyjpeg_proc = 1

module _ (xdr : Xdr) (magickminify : List ℕ → Option (List ℕ)) where
  -- A result that is NULL ends the service.
  minifyjpeg_proc_1_svc : (src : List ℕ) → Outcome (List ℕ)
  minifyjpeg_proc_1_svc src = elim (magickminify src) [ none ↦ exited 1 | some dst ↦ ok dst ]

  -- One request, with the answers of `svc_sendreply` and `svc_freeargs`.
  pub minifyjpeg_prog_1 :
      (sends frees : Bool) → (rq_proc : ℕ) → (arguments : List ℕ) → Outcome Answer
  unfolding minifyjpeg_proc_1_svc minifyjpeg_proc
  minifyjpeg_prog_1 sends frees rq_proc arguments =
      if rq_proc == 0
      then ok nothing
      else if rq_proc == minifyjpeg_proc
      then elim (xdr.decode arguments) [
        | none ↦ ok undecodable
        | some src ↦ minifyjpeg_proc_1_svc src >>= λ dst.
            let answer = if sends then result (xdr.encode dst) else system_error in
            if frees then ok answer else exited 1
      ]
      else ok no_procedure

  -- `clnt_call` gives the result that the service sends, and fails when the service ends without one.
  pub record IsCall (clnt_call : (proc : ℕ) → (arguments : List ℕ) → Option (List ℕ)) : Type 0 where
    pub answered :
        (proc : ℕ) (arguments bytes : List ℕ)
        → minifyjpeg_prog_1 true true proc arguments ≡ ok (result bytes)
        → clnt_call proc arguments ≡ some bytes
    pub unanswered :
        (proc : ℕ) (arguments : List ℕ)
        → minifyjpeg_prog_1 true true proc arguments ≡ exited 1
        → clnt_call proc arguments ≡ none

  module _ (clnt_call : (proc : ℕ) → (arguments : List ℕ) → Option (List ℕ)) where
    -- The length is cut to a `u_int` in `minify_via_rpc`.
    pub minifyjpeg_proc_1 : (src : List ℕ) → Option (List ℕ)
    unfolding minifyjpeg_proc
    minifyjpeg_proc_1 src =
        elim (clnt_call minifyjpeg_proc (xdr.encode (take (length src % u32_mod) src))) [
          | none ↦ none
          | some bytes ↦ xdr.decode bytes
        ]

    -- The call gives what the function gives in the service.
    minifyjpeg_proc_1-magickminify :
        (src : List ℕ)
        → IsCall clnt_call
        → length src < u32_mod
        → ((dst : List ℕ) → magickminify src ≡ some dst → length dst < u32_mod)
        → minifyjpeg_proc_1 src ≡ magickminify src
    unfolding minifyjpeg_proc_1 minifyjpeg_prog_1
    minifyjpeg_proc_1-magickminify src call small small' =
        let whole : take (length src % u32_mod) src ≡ src = take_all _ src (omega arith) in
        elim (Option-cases (magickminify src)) [
          | inl failed ↦
              let none_back : clnt_call 1 (xdr.encode src) ≡ none =
                call.unanswered 1 (xdr.encode src)
                  (rw (xdr.decode-encode src small, minifyjpeg_proc_1_svc, failed) refl) in
              rw (minifyjpeg_proc_1, whole, none_back, failed) refl
          | inr (dst, made) ↦
              let back : clnt_call 1 (xdr.encode src) ≡ some (xdr.encode dst) =
                call.answered 1 (xdr.encode src) (xdr.encode dst)
                  (rw (xdr.decode-encode src small, minifyjpeg_proc_1_svc, made) refl) in
              rw (minifyjpeg_proc_1, whole, back, xdr.decode-encode dst (small' dst made), made)
                refl
        ]

    -- minify_via_rpc over a transport that brings the service's result back and fails when the
    -- service ends without one, on a picture of fewer than 2^32 bytes and an answer of fewer: it
    -- returns what magickminify makes of the picture; it ends the program if that is NULL, and
    -- writes past its memory if that is longer than the picture.
    pub minify_via_rpc-magickminify :
        (src : List ℕ)
        → IsCall clnt_call
        → length src < u32_mod
        → ((dst : List ℕ) → magickminify src ≡ some dst → length dst < u32_mod)
        → minify_via_rpc minifyjpeg_proc_1 src
          ≡ elim (magickminify src) as (λ o. Outcome (List ℕ)) [
            | none ↦ exited 1
            | some dst ↦ if leb (length dst) (length src) then ok dst else fault
          ]
    unfolding minify_via_rpc
    minify_via_rpc-magickminify src call small small' =
        rw (minify_via_rpc, minifyjpeg_proc_1-magickminify src call small small') refl
