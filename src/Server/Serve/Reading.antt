-- ===== src/Server/Serve/Reading.antt =====
-- The reading loop of `serve`: lines in chunks, and how much is kept.
use mathlib.Core.List.{append-nil, append_assoc}
use re_remote_dev.Prelude.{
  AreFull, Bool, Bool-cases, List, [], all, ap, arith, concat, eqb, false, if_both, inl, inr, leb,
  length, length-append, ltb, map, not, refl, subst, sym, true, ℕ, ◌++◌, ◌+◌, ◌∙◌, ◌∷◌, ◌≡◌, ◌≤◌,
}
use re_remote_dev.Server.Serve.{
  Read, Recv, broken, bytes, died, ends_line, got, max_request_bytes, read, timed_out,
}

abbrev pub no_newline : List ℕ → Bool
no_newline = all (λ c. not (eqb c 10))

read_ended : (seen : List ℕ) (rest : List Recv) → ends_line seen ≡ true → read seen rest ≡ got seen
unfolding read
read_ended seen [] e = refl
read_ended seen (timed_out ∷ rest) e = rw e refl
read_ended seen (broken x ∷ rest) e = rw e refl
read_ended seen (bytes [] ∷ rest) e = refl
read_ended seen (bytes (c ∷ cs) ∷ rest) e = rw e refl

pub ends_line-append : (body : List ℕ) → ends_line (body ++ (10 ∷ [])) ≡ true
unfolding ends_line
ends_line-append [] = refl
ends_line-append (c ∷ []) = refl
ends_line-append (c ∷ d ∷ cs) = ends_line-append (d ∷ cs)

pub no_newline-ends_line : (xs : List ℕ) → no_newline xs ≡ true → ends_line xs ≡ false
unfolding ends_line
no_newline-ends_line [] h = refl
no_newline-ends_line (c ∷ []) h = ground arith
no_newline-ends_line (c ∷ d ∷ cs) h = no_newline-ends_line (d ∷ cs) (ground arith)

no_newline-append : (xs ys : List ℕ) → no_newline (xs ++ ys) ≡ true → no_newline xs ≡ true
no_newline-append [] ys h = refl
no_newline-append (x ∷ xs) ys h = ground (arith, no_newline-append xs ys)

-- Text before the line's end has no newline.
pub prefix-no_newline :
    (seen : List ℕ) (c : ℕ) (more body : List ℕ)
    → seen ++ (c ∷ more) ≡ body ++ (10 ∷ [])
    → no_newline body ≡ true
    → no_newline seen ≡ true
prefix-no_newline [] c more body e h = refl
prefix-no_newline (x ∷ []) c more [] e h = cc
prefix-no_newline (x ∷ y ∷ seen) c more [] e h = cc
prefix-no_newline (x ∷ seen) c more (b ∷ body) e h =
    let ih = prefix-no_newline seen c more body (cc) (ground arith) in
    let same_head : x ≡ b = cc in ground arith

pub length-concat :
    (seen : List ℕ) (cs more : List ℕ) → length (seen ++ cs) ≤ length (seen ++ (cs ++ more))
length-concat seen cs more =
    omega (arith, length-append seen cs, length-append seen (cs ++ more), length-append cs more)

read-line_from :
    (seen : List ℕ) (chunks : List (List ℕ)) (body : List ℕ) (rest : List Recv)
    → AreFull chunks
    → seen ++ concat chunks ≡ body ++ (10 ∷ [])
    → no_newline body ≡ true
    → length (body ++ (10 ∷ [])) ≤ max_request_bytes
    → read seen (map bytes chunks ++ rest) ≡ got (body ++ (10 ∷ []))
unfolding read concat
read-line_from seen [] body rest full e h small =
    let whole : seen ≡ body ++ (10 ∷ []) = sym (append-nil seen) ∙ e in
    rw whole (read_ended (body ++ (10 ∷ [])) rest (ends_line-append body))
read-line_from seen ([] ∷ chunks) body rest full e h small = elim full [ ]
read-line_from seen ((c ∷ cs) ∷ chunks) body rest full e h small =
    rw (no_newline-ends_line seen (prefix-no_newline seen c (cs ++ concat chunks) body e h), fits)
      (read-line_from (seen ++ (c ∷ cs)) chunks body rest full
        (append_assoc seen (c ∷ cs) (concat chunks) ∙ e) h small)
  where
    fits : ltb max_request_bytes (length (seen ++ (c ∷ cs))) ≡ false
    fits = ground (arith, length-concat seen (c ∷ cs) (concat chunks), ap length e)

-- A line of at most 8 KiB is read as it was sent, in whatever chunks it arrives, the last of which ends
-- with the line.
pub read-line :
    (chunks : List (List ℕ)) (body : List ℕ) (rest : List Recv)
    → AreFull chunks
    → concat chunks ≡ body ++ (10 ∷ [])
    → no_newline body ≡ true
    → length (body ++ (10 ∷ [])) ≤ max_request_bytes
    → read [] (map bytes chunks ++ rest) ≡ got (body ++ (10 ∷ []))
read-line chunks body rest full e h small = read-line_from [] chunks body rest full e h small

-- Chunks of at most 4096 bytes, which is what `recv` is asked for.
abbrev pub fits_recv : Recv → Bool
fits_recv (bytes cs) = leb (length cs) 4096
fits_recv timed_out = true
fits_recv (broken e) = true

abbrev pub IsBounded : Read → Type 0
IsBounded (got seen) = length seen ≤ max_request_bytes + 4096
IsBounded (died e) = Unit

read_from-IsBounded :
    (seen : List ℕ) (stream : List Recv)
    → all fits_recv stream ≡ true
    → length seen ≤ max_request_bytes
    → IsBounded (read seen stream)
unfolding read
read_from-IsBounded seen [] f h = omega arith
read_from-IsBounded seen (timed_out ∷ rest) f h =
    if_both IsBounded (ends_line seen) {x = got seen} (omega arith) (omega arith)
read_from-IsBounded seen (broken x ∷ rest) f h =
    if_both IsBounded (ends_line seen) {x = got seen} (omega arith) tt
read_from-IsBounded seen (bytes [] ∷ rest) f h = omega arith
read_from-IsBounded seen (bytes (c ∷ cs) ∷ rest) f h =
    if_both IsBounded (ends_line seen) {x = got seen} (omega arith)
      (elim (Bool-cases (ltb max_request_bytes (length (seen ++ (c ∷ cs))))) [
        | inl e ↦ rw e (ground (arith, length-append seen (c ∷ cs)))
        | inr e ↦ rw e (read_from-IsBounded (seen ++ (c ∷ cs)) rest (ground arith) (ground arith))
      ])

-- What is kept of a request never exceeds 12 KiB, whatever the client sends.
pub read-IsBounded : (stream : List Recv) → all fits_recv stream ≡ true → IsBounded (read [] stream)
read-IsBounded stream f = read_from-IsBounded [] stream f (omega arith)

read-stalled_from :
    (seen : List ℕ) (chunks : List (List ℕ)) (rest : List Recv)
    → AreFull chunks
    → no_newline (seen ++ concat chunks) ≡ true
    → length (seen ++ concat chunks) ≤ max_request_bytes
    → read seen (map bytes chunks ++ (timed_out ∷ rest)) ≡ got []
unfolding read concat
read-stalled_from seen [] rest full h small =
    let e : no_newline seen ≡ true = ap no_newline (sym (append-nil seen)) ∙ h in
    rw (no_newline-ends_line seen e) refl
read-stalled_from seen ([] ∷ chunks) rest full h small = elim full [ ]
read-stalled_from seen ((c ∷ cs) ∷ chunks) rest full h small =
    rw (no_newline-ends_line seen (no_newline-append seen (c ∷ (cs ++ concat chunks)) h), fits)
      (read-stalled_from (seen ++ (c ∷ cs)) chunks rest full (ap no_newline assoc ∙ h)
        (subst (λ (n : ℕ). n ≤ max_request_bytes) (ap length (sym assoc)) small))
  where
    assoc : (seen ++ (c ∷ cs)) ++ concat chunks ≡ seen ++ (c ∷ (cs ++ concat chunks))
    assoc = append_assoc seen (c ∷ cs) (concat chunks)

    fits : ltb max_request_bytes (length (seen ++ (c ∷ cs))) ≡ false
    fits = ground (arith, length-concat seen (c ∷ cs) (concat chunks))

-- A client that stops in the middle of its line is read as nothing at all.
pub read-stalled :
    (chunks : List (List ℕ)) (rest : List Recv)
    → AreFull chunks
    → no_newline (concat chunks) ≡ true
    → length (concat chunks) ≤ max_request_bytes
    → read [] (map bytes chunks ++ (timed_out ∷ rest)) ≡ got []
read-stalled chunks rest full h small = read-stalled_from [] chunks rest full h small
