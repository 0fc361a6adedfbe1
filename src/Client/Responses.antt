-- ===== src/Client/Responses.antt =====
-- Which responses a client takes.
use mathlib.Core.List.{append-nil, append_assoc}
use re_remote_dev.Client.{collect, decoded, request}
use re_remote_dev.Json.{Fields, Json}
use re_remote_dev.Prelude.{
  AreFull, Bool-cases, List, Option, [], ap, arith, concat, false, if◌then◌else◌, inl, inr, length,
  ltb, map, refl, sym, true, ℕ, ◌++◌, ◌∙◌, ◌∷◌, ◌≡◌, ◌≤◌,
}
use re_remote_dev.Result.{Result, err, invalid, ok}
use re_remote_dev.Server.Serve.{Recv, broken, bytes, ends_line, max_request_bytes, timed_out}
use re_remote_dev.Server.Serve.Reading.{
  ends_line-append, length-concat, no_newline, no_newline-ends_line, prefix-no_newline,
}

-- What a response comes to: the whole line, or the refusal of a long one.
abbrev pub by_length : List ℕ → Result (List ℕ)
by_length line =
    if ltb max_request_bytes (length line) then err (invalid "编排器响应超过 8 KiB") else ok line

collect_ended :
    (seen : List ℕ) (rest : List Recv) → ends_line seen ≡ true → collect seen rest ≡ ok seen
unfolding collect
collect_ended seen [] e = refl
collect_ended seen (timed_out ∷ rest) e = rw e refl
collect_ended seen (broken x ∷ rest) e = rw e refl
collect_ended seen (bytes [] ∷ rest) e = refl
collect_ended seen (bytes (c ∷ cs) ∷ rest) e = rw e refl

collect-line_from :
    (seen : List ℕ) (chunks : List (List ℕ)) (body : List ℕ) (rest : List Recv)
    → AreFull chunks
    → seen ++ concat chunks ≡ body ++ (10 ∷ [])
    → no_newline body ≡ true
    → length seen ≤ max_request_bytes
    → collect seen (map bytes chunks ++ rest) ≡ by_length (body ++ (10 ∷ []))
unfolding collect concat
collect-line_from seen [] body rest full e h small =
    let whole : seen ≡ body ++ (10 ∷ []) = sym (append-nil seen) ∙ e in
    let fits : ltb max_request_bytes (length (body ++ (10 ∷ []))) ≡ false =
      ground (arith, ap length whole) in
    rw fits (
      ap (λ (l : List ℕ). collect l rest) whole
      ∙ collect_ended (body ++ (10 ∷ [])) rest (ends_line-append body))
collect-line_from seen ([] ∷ chunks) body rest full e h small = elim full [ ]
collect-line_from seen ((c ∷ cs) ∷ chunks) body rest full e h small =
    let open_line : ends_line seen ≡ false =
      no_newline-ends_line seen (prefix-no_newline seen c (cs ++ concat chunks) body e h) in
    elim (Bool-cases (ltb max_request_bytes (length (seen ++ (c ∷ cs))))) [
      | inl long ↦
          let too_long : ltb max_request_bytes (length (body ++ (10 ∷ []))) ≡ true =
            ground (arith, length-concat seen (c ∷ cs) (concat chunks), ap length e) in
          rw (open_line, long, too_long) refl
      | inr short ↦
          rw (open_line, short)
            (collect-line_from (seen ++ (c ∷ cs)) chunks body rest full
              (append_assoc seen (c ∷ cs) (concat chunks) ∙ e) h (ground arith))
    ]

-- For a request of at most 8 KiB, a response on one line gives what its text decodes to, and is refused
-- exactly if it is longer than 8 KiB, in whatever chunks it arrives, the last of which ends with the line.
-- What the socket would give after that chunk changes nothing.
pub request-response :
    (dumps : Fields → List ℕ) (parse : List ℕ → Option Json)
    (exchange : List ℕ → Result (List Recv)) (payload : Fields) (chunks : List (List ℕ))
    (body : List ℕ) (rest : List Recv)
    → length (dumps payload ++ (10 ∷ [])) ≤ max_request_bytes
    → exchange (dumps payload ++ (10 ∷ [])) ≡ ok (map bytes chunks ++ rest)
    → AreFull chunks
    → concat chunks ≡ body ++ (10 ∷ [])
    → no_newline body ≡ true
    → request dumps parse exchange payload ≡ (
        if ltb max_request_bytes (length (body ++ (10 ∷ [])))
        then err (invalid "编排器响应超过 8 KiB")
        else decoded parse (body ++ (10 ∷ [])))
unfolding request
request-response dumps parse exchange payload chunks body rest small sent full e h =
    let sendable : ltb max_request_bytes (length (dumps payload ++ (10 ∷ []))) ≡ false =
      ground arith in
    rw (sendable, sent, collect-line_from [] chunks body rest full e h (omega arith))
      (elim (Bool-cases (ltb max_request_bytes (length (body ++ (10 ∷ []))))) [
        | inl long ↦ rw long refl
        | inr short ↦ rw short refl
      ])
