-- ===== src/Upload/Sources.antt =====
-- The sources that an expansion gives, and the masters that an upload leaves.
use re_remote_dev.Prelude.{
  Bool, Bool-cases, List, Option, String, [], ap, arith, eq_iff, eqb, false, if_both, if◌then◌else◌,
  inl, inr, length, none, not, on_some, refl, some, subst, sym, true, ◌&&◌, ◌++◌, ◌<◌, ◌==◌, ◌||◌,
  ◌∙◌, ◌∷◌, ◌≡◌,
}
use re_remote_dev.Prelude.Text.{is_empty, mem}
use re_remote_dev.Result.{>>=-eq-ok, Result, err, failed, ok, ◌>>=◌}
use re_remote_dev.Upload.{
  Connection, Expansion, Files, MasterRun, Masters, add_item, add_matches, add_raw, add_source,
  add_sources, add_tree, exited, expand_upload_sources, matches, put_files, raised, some_item,
  start_master, stop_master, with_master, without_master,
}

-- No text twice.
abbrev pub Distinct : List String → Type 0
Distinct [] = Unit
Distinct (x ∷ xs) = (mem x xs ≡ false) × Distinct xs

abbrev pub locals_of : List (String × String) → List String
locals_of [] = []
locals_of ((resolved, relative) ∷ rest) = resolved ∷ locals_of rest

abbrev pub remotes_of : List (String × String) → List String
remotes_of [] = []
remotes_of ((resolved, relative) ∷ rest) = relative ∷ remotes_of rest

mem-append : (x y : String) (xs : List String) → mem x (xs ++ (y ∷ [])) ≡ (mem x xs || y == x)
mem-append x y [] = ground arith
mem-append x y (z ∷ xs) = ground (arith, mem-append x y xs)

Distinct-append :
    (xs : List String) (y : String) → Distinct xs → mem y xs ≡ false → Distinct (xs ++ (y ∷ []))
Distinct-append [] y d h = (refl, tt)
Distinct-append (x ∷ xs) y d h =
    ground (arith, mem-append x y xs, Distinct-append xs y, eq_iff x y, eq_iff y x)

locals_of-append :
    (items : List (String × String)) (a b : String)
    → locals_of (items ++ ((a, b) ∷ [])) ≡ locals_of items ++ (a ∷ [])
locals_of-append [] a b = refl
locals_of-append ((c, d) ∷ items) a b = rw (locals_of-append items a b) refl

remotes_of-append :
    (items : List (String × String)) (a b : String)
    → remotes_of (items ++ ((a, b) ∷ [])) ≡ remotes_of items ++ (b ∷ [])
remotes_of-append [] a b = refl
remotes_of-append ((c, d) ∷ items) a b = rw (remotes_of-append items a b) refl

-- The two sets are those of the items, which are all different.
record IsExpansion (e : Expansion) : Type 0 where
  seen_all : e.seen ≡ locals_of e.items
  remote_all : e.remote_seen ≡ remotes_of e.items
  seen_once : Distinct e.seen
  remote_once : Distinct e.remote_seen

abbrev IsGood : Result Expansion → Type 0
IsGood (ok e) = IsExpansion e
IsGood (err x) = Unit

IsGood-bind :
    (m : Result Expansion) (f : Expansion → Result Expansion)
    → IsGood m
    → ((e : Expansion) → IsExpansion e → IsGood (f e))
    → IsGood (m >>= f)
IsGood-bind (ok e) f h k = k e h
IsGood-bind (err x) f h k = tt

add_item-IsGood :
    (resolved relative : String) (e : Expansion)
    → IsExpansion e
    → IsGood (add_item resolved relative e)
unfolding add_item
add_item-IsGood resolved relative e h = elim (Bool-cases (mem resolved e.seen)) [
  | inl known ↦ rw known h
  | inr fresh ↦ elim (Bool-cases (mem relative e.remote_seen)) [
    | inl taken ↦ rw (fresh, taken) tt
    | inr unused ↦
        rw (fresh, unused)
          (record {
            seen_all =
                ap (λ xs. xs ++ (resolved ∷ [])) h.seen_all
                ∙ sym (locals_of-append e.items resolved relative);
            remote_all =
                ap (λ xs. xs ++ (relative ∷ [])) h.remote_all
                ∙ sym (remotes_of-append e.items resolved relative);
            seen_once = Distinct-append e.seen resolved h.seen_once fresh;
            remote_once = Distinct-append e.remote_seen relative h.remote_once unused;
          })
  ]
]

module _ (fs : Files) (recursive : Bool) where
  add_tree-IsGood :
      (base : String) (found : List String) (e : Expansion)
      → IsExpansion e
      → IsGood (add_tree fs recursive base found e)
  unfolding add_tree
  add_tree-IsGood base [] e h = h
  add_tree-IsGood base (candidate ∷ rest) e h =
      IsGood-bind
        (if fs.is_file candidate
          then add_item (fs.resolve candidate) (fs.relative base candidate) e
          else ok e)
        (add_tree fs recursive base rest)
        (if_both IsGood (fs.is_file candidate)
          (add_item-IsGood (fs.resolve candidate) (fs.relative base candidate) e h) h)
        (add_tree-IsGood base rest)

  add_source-IsGood :
      (source : String) (e : Expansion) → IsExpansion e → IsGood (add_source fs recursive source e)
  unfolding add_source
  add_source-IsGood source e h =
      if_both IsGood (fs.is_dir source)
        (if_both IsGood (not recursive) tt
          (add_tree-IsGood (fs.resolve source) (fs.rglob (fs.resolve source)) e h))
        (if_both IsGood (fs.is_file source)
          (add_item-IsGood (fs.resolve source) (fs.name (fs.resolve source)) e h) tt)

  add_sources-IsGood :
      (sources : List String) (e : Expansion)
      → IsExpansion e
      → IsGood (add_sources fs recursive sources e)
  unfolding add_sources
  add_sources-IsGood [] e h = h
  add_sources-IsGood (source ∷ rest) e h =
      IsGood-bind (add_source fs recursive source e) (add_sources fs recursive rest)
        (add_source-IsGood source e h) (add_sources-IsGood rest)

  add_raw-IsGood :
      (raw_sources : List String) (e : Expansion)
      → IsExpansion e
      → IsGood (add_raw fs recursive raw_sources e)
  unfolding add_raw
  add_raw-IsGood [] e h = h
  add_raw-IsGood (raw ∷ rest) e h =
      IsGood-bind (add_matches fs recursive raw found e) (add_raw fs recursive rest) (go found)
        (add_raw-IsGood rest)
    where
      found : List String
      found = matches fs recursive (fs.expanduser raw)

      go : (found : List String) → IsGood (add_matches fs recursive raw found e)
      go [] = unfold add_matches in tt
      go (source ∷ others) = unfold add_matches in add_sources-IsGood (source ∷ others) e h

  -- Of what an expansion gives, no local file and no remote path comes twice, and there is at least one.
  pub expand-Distinct :
      (raw_sources : List String) (items : List (String × String))
      → expand_upload_sources fs recursive raw_sources ≡ ok items
      → Distinct (locals_of items) × Distinct (remotes_of items) × (0 < length items)
  unfolding expand_upload_sources
  expand-Distinct raw_sources items e =
      let start : Expansion = record { items = []; seen = []; remote_seen = [] } in
      let (expanded, added, given) =
        >>=-eq-ok (add_raw fs recursive raw_sources start) (some_item fs recursive) items e in
      let good : IsExpansion expanded = subst IsGood added (
        add_raw-IsGood raw_sources start
          (record { seen_all = refl; remote_all = refl; seen_once = tt; remote_once = tt })) in
      chosen expanded good given
    where
      chosen :
          (x : Expansion)
          → IsExpansion x
          → some_item fs recursive x ≡ ok items
          → Distinct (locals_of items) × Distinct (remotes_of items) × (0 < length items)
      chosen x h given =
          pick x.items given (subst Distinct h.seen_all h.seen_once)
            (subst Distinct h.remote_all h.remote_once)
        where
          pick :
              (found : List (String × String))
              → elim found [ [] ↦ err (failed "目录中没有可上传的普通文件") | y ∷ ys ↦ ok (y ∷ ys) ] ≡ ok items
              → Distinct (locals_of found)
              → Distinct (remotes_of found)
              → Distinct (locals_of items) × Distinct (remotes_of items) × (0 < length items)
          pick [] q a b = cc
          pick (y ∷ ys) q a b =
              let same_items : (y ∷ ys) ≡ items = cc in
              subst (λ l. Distinct (locals_of l) × Distinct (remotes_of l) × (0 < length l))
                same_items (a, b, omega arith)

without_absent :
    (path : String) (running : Masters)
    → mem path running ≡ false
    → without_master path running ≡ running
unfolding without_master
without_absent path [] h = refl
without_absent path (p ∷ ps) h = ground (arith, without_absent path ps)

-- A master at a path that none ran at is the one that is ended.
without_started :
    (path : String) (running : Masters)
    → mem path running ≡ false
    → without_master path (path ∷ running) ≡ running
unfolding without_master
without_started path running h = rw ((eq_iff path path).1 refl) (without_absent path running h)

-- The masters that a batch leaves, if none ran at its control path: one more there if the start of a
-- master raised and left it, or if a master was started and `ssh -O exit` did not end it; and otherwise
-- those that ran before.
abbrev pub left_masters : MasterRun → Bool → Option String → Masters → Masters
left_masters run ends none running = running
left_masters run ends (some path) running = if is_empty path then running else elim run [
  | raised e alive ↦ if alive then path ∷ running else running
  | exited status ↦ if eqb status 0 && not ends then path ∷ running else running
]

-- If no master runs at its control path, a batch leaves the masters as they were whatever the uploads do,
-- but for one at that path in two cases: the run that starts it raises and leaves one, or it starts and
-- `ssh -O exit` does not end it.
pub put_files-masters :
    (root : Connection → Result String)
    (put : Connection → String → String × String → Result String) (run : MasterRun) (ends : Bool)
    (connection : Connection) (item : String × String) (rest : List (String × String))
    (running : Masters)
    → on_some false (λ path. mem path running) connection.control_path ≡ false
    → (put_files root put run ends connection (item ∷ rest) running).1
      ≡ left_masters run ends connection.control_path running
unfolding put_files with_master start_master stop_master
put_files-masters root put run ends connection item rest running h =
    go connection.control_path run ends h
  where
    if_not : (b : Bool) (x y z : Masters) → x ≡ z → (if b then x else y) ≡ (if not b then y else z)
    if_not true x y z e = e
    if_not false x y z e = refl

    go :
        (path : Option String) (run : MasterRun) (ends : Bool)
        → on_some false (λ path. mem path running) path ≡ false
        → (with_master root put ends
            (item ∷ rest)
            (start_master run (record connection { control_path = path }) running)).1
          ≡ left_masters run ends path running
    go none run ends h = refl
    go (some path) (raised x alive) ends h = elim (Bool-cases (is_empty path)) [
      | inl e ↦ rw e refl
      | inr e ↦ rw e refl
    ]
    go (some path) (exited status) ends h = elim (Bool-cases (is_empty path)) [
      | inl e ↦ rw e refl
      | inr e ↦ elim (Bool-cases (eqb status 0)) [
        | inl well ↦
            rw (e, well, e)
              (if_not ends (without_master path (path ∷ running)) (path ∷ running) running
                (without_started path running h))
        | inr bad ↦ rw (e, bad) refl
      ]
    ]
