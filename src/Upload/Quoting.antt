-- ===== src/Upload/Quoting.antt =====
-- A quoted path is read back as it was.
use mathlib.Core.List.{append_assoc}
use re_remote_dev.Prelude.{
  Bool, Bool-cases, List, Option, [], arith, eqb, false, if◌then◌else◌, inl, inr, none, refl, some,
  ℕ, ◌++◌, ◌||◌, ◌∷◌, ◌≡◌,
}
use re_remote_dev.Upload.{escape_all, sftp_quote}
use mathlib.Core.Option

-- A reader of one text in double quotes, where a backslash escapes what follows; it gives the rest too.
unfoldable pub unquote_from : List ℕ → Option (List ℕ × List ℕ)
unquote_from [] = none
unquote_from (c ∷ []) = if eqb c b'"' then some ([], []) else none
unquote_from (c ∷ d ∷ cs) =
    let after = unquote_from cs in
    let here = unquote_from (d ∷ cs) in
    if eqb c b'"'
    then some ([], d ∷ cs)
    else if eqb c 92
    then Option.map (λ (p : List ℕ × List ℕ). (d ∷ p.0, p.1)) after
    else Option.map (λ (p : List ℕ × List ℕ). (c ∷ p.0, p.1)) here

abbrev pub unquote : List ℕ → Option (List ℕ × List ℕ)
unquote [] = none
unquote (c ∷ cs) = if eqb c b'"' then unquote_from cs else none

-- The four replacements in one pass.
abbrev needs_escape : ℕ → Bool
needs_escape c = eqb c 92 || eqb c b'"' || eqb c b'$' || eqb c b'`'

abbrev escape : List ℕ → List ℕ
escape [] = []
escape (c ∷ cs) = if needs_escape c then 92 ∷ c ∷ escape cs else c ∷ escape cs

escape_all-escape :
    (cs : List ℕ)
    → escape_all b'`' (escape_all b'$' (escape_all b'"' (escape_all 92 cs))) ≡ escape cs
unfolding escape_all
escape_all-escape [] = refl
escape_all-escape (c ∷ cs) = ground (arith, escape_all-escape cs)

unquote_from-escape :
    (cs rest : List ℕ) → unquote_from (escape cs ++ (b'"' ∷ rest)) ≡ some (cs, rest)
unfolding unquote_from
unquote_from-escape [] [] = refl
unquote_from-escape [] (r ∷ rest) = refl
unquote_from-escape (c ∷ cs) rest = elim (Bool-cases (needs_escape c)) [
  | inl e ↦ rw (e, unquote_from-escape cs rest) refl
  | inr e ↦ rw e (plain (escape cs ++ (b'"' ∷ rest)) (unquote_from-escape cs rest) e)
]
  where
    plain :
        (text : List ℕ)
        → unquote_from text ≡ some (cs, rest)
        → needs_escape c ≡ false
        → unquote_from (c ∷ text) ≡ some (c ∷ cs, rest)
    plain [] h e = cc
    plain (d ∷ text) h e = ground (arith, h)

-- A path that `_sftp_quote` quotes is read back as it was by a reader for which a backslash escapes the
-- next character, and what follows the closing quote is left.
pub unquote-sftp_quote : (cs rest : List ℕ) → unquote (sftp_quote cs ++ rest) ≡ some (cs, rest)
unfolding sftp_quote
unquote-sftp_quote cs rest =
    rw (escape_all-escape cs, append_assoc (escape cs) (b'"' ∷ []) rest)
      (unquote_from-escape cs rest)
