-- ===== src/Viewers.antt =====
-- preview_open.py: the local viewer of a downloaded file. `shlex_split` stands for `shlex.split`, with
-- `none` where it raises ValueError, and
-- `which` says whether a program is installed.
use re_remote_dev.Prelude.{
  Bool, Bool-cases, List, Option, String, [], any, false, if_both, if◌then◌else◌, inl, inr, map,
  none, not, refl, some, true, ◌++◌, ◌==◌, ◌∷◌, ◌≡◌, ◌⊎◌,
}
use re_remote_dev.Prelude.Text.{is_empty}
use re_remote_dev.Result.{Result, err, failed, invalid, ok, ◌>>=◌}

-- _configured(name), over the stripped value of the variable
unfoldable pub configured : (String → Option (List String)) → String → Result (Option (List String))
configured shlex_split value =
    if is_empty value
    then ok none
    else elim (shlex_split value) [ none ↦ err (invalid "ValueError") | some argv ↦ ok (some argv) ]

-- The variables RDO_MARKDOWN_APP, RDO_PDF_APP, RDO_IMAGE_APP and RDO_DEFAULT_APP, stripped.
pub record Apps : Type 0 where
  pub markdown : String
  pub pdf : String
  pub image : String
  pub default : String

abbrev pub one_of : String → List String → Bool
one_of s = any (λ t. t == s)

-- The variable that counts for a suffix in lower case, and the viewers that are tried after it.
unfoldable pub viewers : Apps → String → String × List (List String)
viewers apps suffix =
    if one_of suffix (".md" ∷ ".markdown" ∷ ".mdown" ∷ ".mkd" ∷ [])
    then (apps.markdown, ("typora" ∷ []) ∷ ("xdg-open" ∷ []) ∷ [])
    else if suffix == ".pdf"
    then (apps.pdf, ("zathura" ∷ []) ∷ ("evince" ∷ []) ∷ ("xdg-open" ∷ []) ∷ [])
    else if one_of suffix (".png" ∷ ".jpg" ∷ ".jpeg" ∷ ".gif" ∷ ".webp" ∷ ".bmp" ∷ ".svg" ∷ [])
    then (apps.image, ("imv" ∷ []) ∷ ("nsxiv" ∷ []) ∷ ("xdg-open" ∷ []) ∷ [])
    else (apps.default, ("xdg-open" ∷ []) ∷ [])

-- _candidates(path)
unfoldable pub candidates :
    (String → Option (List String)) → Apps → String → Result (List (Option (List String)))
unfolding configured viewers
candidates shlex_split apps suffix = configured shlex_split (viewers apps suffix).0 >>= λ own.
    ok (own ∷ map some (viewers apps suffix).1)

module _ (which : String → Bool) (launches : List String → Bool) where
  -- The loop over the candidates, for a path, with a fixed text for the error; a launch that raises OSError goes on to the next.
  unfoldable pub open_first : String → List (Option (List String)) → Result (List String)
  open_first path [] = err (failed "未找到可打开该文件的本地查看器")
  open_first path (none ∷ rest) = open_first path rest
  open_first path (some [] ∷ rest) = open_first path rest
  open_first path (some (program ∷ args) ∷ rest) =
      let others = open_first path rest in
      let command = program ∷ (args ++ (path ∷ [])) in
      if not (which program) then others else if launches command then ok command else others

  -- open_local(path)
  unfoldable pub open_local :
      (String → Option (List String)) → Apps → String → String → Result (List String)
  unfolding open_first candidates
  open_local shlex_split apps suffix path = candidates shlex_split apps suffix >>= open_first path

  abbrev Opens : Result (List String) → Type 0
  Opens (ok command) = launches command ≡ true
  Opens (err e) = ⊥

  skip-Opens :
      (path : String) (o : Option (List String)) (rest : List (Option (List String)))
      → Opens (open_first path rest)
      → Opens (open_first path (o ∷ rest))
  unfolding open_first
  skip-Opens path none rest h = h
  skip-Opens path (some []) rest h = h
  skip-Opens path (some (program ∷ args)) rest h =
      if_both Opens (not (which program)) h
        (launched (Bool-cases (launches (program ∷ (args ++ (path ∷ []))))))
    where
      launched :
          ((launches (program ∷ (args ++ (path ∷ []))) ≡ true)
            ⊎ (launches (program ∷ (args ++ (path ∷ []))) ≡ false))
          → Opens (
              if launches (program ∷ (args ++ (path ∷ [])))
              then ok (program ∷ (args ++ (path ∷ [])))
              else open_first path rest)
      launched (inl e) = rw e e
      launched (inr e) = rw e h

  last-Opens :
      (path : String)
      → which "xdg-open" ≡ true
      → launches ("xdg-open" ∷ path ∷ []) ≡ true
      → Opens (open_first path (some ("xdg-open" ∷ []) ∷ []))
  unfolding open_first
  last-Opens path installed starts = rw (installed, starts) starts

  ends-Opens :
      (path : String) (front : List (Option (List String)))
      → which "xdg-open" ≡ true
      → launches ("xdg-open" ∷ path ∷ []) ≡ true
      → Opens (open_first path (front ++ (some ("xdg-open" ∷ []) ∷ [])))
  ends-Opens path [] installed starts = last-Opens path installed starts
  ends-Opens path (o ∷ front) installed starts =
      skip-Opens path o (front ++ (some ("xdg-open" ∷ []) ∷ []))
        (ends-Opens path front installed starts)

  viewers-Opens :
      (apps : Apps) (suffix path : String) (own : Option (List String))
      → which "xdg-open" ≡ true
      → launches ("xdg-open" ∷ path ∷ []) ≡ true
      → Opens (open_first path (own ∷ map some (viewers apps suffix).1))
  unfolding viewers
  viewers-Opens apps suffix path own installed starts =
      if_both Tried (one_of suffix (".md" ∷ ".markdown" ∷ ".mdown" ∷ ".mkd" ∷ []))
        (ends-Opens path (own ∷ some ("typora" ∷ []) ∷ []) installed starts)
        (if_both Tried (suffix == ".pdf")
          (ends-Opens path (own ∷ some ("zathura" ∷ []) ∷ some ("evince" ∷ []) ∷ []) installed
            starts)
          (if_both Tried
            (one_of suffix (".png" ∷ ".jpg" ∷ ".jpeg" ∷ ".gif" ∷ ".webp" ∷ ".bmp" ∷ ".svg" ∷ []))
            (ends-Opens path (own ∷ some ("imv" ∷ []) ∷ some ("nsxiv" ∷ []) ∷ []) installed starts)
            (ends-Opens path (own ∷ []) installed starts)))
    where
      Tried : String × List (List String) → Type 0
      Tried v = Opens (open_first path (own ∷ map some v.1))

  -- Where xdg-open is installed and starts, and the variable that counts for the suffix is blank or can
  -- be split, every file is opened by a viewer that starts, whatever the variable names and whatever the
  -- suffix is.
  pub open_local-Opens :
      (shlex_split : String → Option (List String)) (apps : Apps) (suffix path : String)
      (own : Option (List String))
      → configured shlex_split (viewers apps suffix).0 ≡ ok own
      → which "xdg-open" ≡ true
      → launches ("xdg-open" ∷ path ∷ []) ≡ true
      → (command : List String) × (open_local shlex_split apps suffix path ≡ ok command)
        × (launches command ≡ true)
  unfolding open_local candidates
  open_local-Opens shlex_split apps suffix path own split installed starts = rw split (
      given (open_first path (own ∷ map some (viewers apps suffix).1))
        (viewers-Opens apps suffix path own installed starts))
    where
      given :
          (r : Result (List String))
          → Opens r
          → (command : List String) × (r ≡ ok command) × (launches command ≡ true)
      given (ok argv) h = (argv, refl, h)
      given (err e) h = elim h [ ]
