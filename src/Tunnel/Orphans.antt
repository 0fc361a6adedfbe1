-- ===== src/Tunnel/Orphans.antt =====
-- `cleanup_orphans` of orchestrator/proxy_persistent.py.
use Prim.Native.Char.{code}
use mathlib.Core.List.{reverse}
use re_remote_dev.Prelude.{
  Bool, Bool-cases, List, Option, String, [], ap, arith, eq_iff, false, if◌then◌else◌, inl, inr,
  none, not, on_some, refl, some, sym, true, ℕ, ◌&&◌, ◌+◌, ◌==◌, ◌||◌, ◌∙◌, ◌∷◌, ◌≡◌,
}
use re_remote_dev.Prelude.Text.{codes, has_prefix, is_space, mem, text_lt}

-- The unit files of a directory, the units that `systemctl disable --now` was called for, newest first,
-- and the number of reloads.
pub record Units : Type 0 where
  pub files : List String
  pub disabled : List String
  pub reloads : ℕ

-- A text up to its first white space.
unfoldable pub word : String → String
word String.[] = String.[]
word (String.◌∷◌ c s) =
    let rest = word s in if is_space (code c) then String.[] else String.◌∷◌ c rest

-- line.split()[0], if the line is not blank
unfoldable pub first_field : String → Option String
unfolding word
first_field String.[] = none
first_field (String.◌∷◌ c s) =
    let rest = first_field s in if is_space (code c) then rest else some (String.◌∷◌ c (word s))

-- The first fields of the lines that `systemctl list-units` prints.
unfoldable pub first_fields : List String → List String
unfolding first_field
first_fields [] = []
first_fields (line ∷ lines) =
    on_some (first_fields lines) (λ name. name ∷ first_fields lines) (first_field line)

-- remote-dev-proxy-*.service
unfoldable pub is_proxy_unit : String → Bool
is_proxy_unit name =
    has_prefix (codes "remote-dev-proxy-") (codes name)
    && has_prefix (reverse (codes ".service")) (reverse (codes name))

-- A place in the sorted set of names.
unfoldable pub insert_name : String → List String → List String
insert_name name [] = name ∷ []
insert_name name (m ∷ ms) =
    let rest = insert_name name ms in
    if m == name then m ∷ ms else if text_lt name m then name ∷ m ∷ ms else m ∷ rest

-- names.update(...), of the names that fit
unfoldable pub add_units : List String → List String → List String
unfolding is_proxy_unit insert_name
add_units [] names = names
add_units (x ∷ xs) names = add_units xs (if is_proxy_unit x then insert_name x names else names)

unfoldable pub drop_name : String → List String → List String
drop_name name [] = []
drop_name name (x ∷ xs) = let rest = drop_name name xs in if x == name then rest else x ∷ rest

-- `systemctl disable --now`, whose return code is not looked at, and `unlink` for each name.
unfoldable pub drop_units : List String → Units → Units
unfolding drop_name
drop_units [] u = u
drop_units (name ∷ names) u =
    drop_units names (record u { files = drop_name name u.files; disabled = name ∷ u.disabled })

abbrev some_name : List String → ℕ
some_name [] = 0
some_name (name ∷ names) = 1

-- cleanup_orphans(), with the lines that `systemctl list-units` prints
unfoldable pub cleanup_orphans : List String → Units → Units
unfolding add_units drop_units first_fields
cleanup_orphans listed u =
    let names = add_units (first_fields listed) (add_units u.files []) in
    let dropped = drop_units names u in
    record dropped { reloads = dropped.reloads + some_name names }

mem-insert_name :
    (x name : String) (names : List String)
    → mem x (insert_name name names) ≡ (name == x || mem x names)
unfolding insert_name
mem-insert_name x name [] = refl
mem-insert_name x name (m ∷ ms) =
    ground (arith, eq_iff m name, eq_iff name x, eq_iff m x, mem-insert_name x name ms)

mem-add_units :
    (x : String) (xs names : List String)
    → mem x (add_units xs names) ≡ ((is_proxy_unit x && mem x xs) || mem x names)
unfolding add_units
mem-add_units x [] names = ground arith
mem-add_units x (y ∷ ys) names =
    mem-add_units x ys (if is_proxy_unit y then insert_name y names else names)
    ∙ go (is_proxy_unit y) refl
  where
    go :
        (b : Bool)
        → is_proxy_unit y ≡ b
        → ((is_proxy_unit x && mem x ys) || mem x (if b then insert_name y names else names))
          ≡ ((is_proxy_unit x && (y == x || mem x ys)) || mem x names)
    go true e = elim (Bool-cases (y == x)) [
      | inl h ↦
          let fits : is_proxy_unit x ≡ true = ap is_proxy_unit (sym ((eq_iff y x).0 h)) ∙ e in
          rw (mem-insert_name x y names, h, fits) (ground arith)
      | inr h ↦ rw (mem-insert_name x y names, h) refl
    ]
    go false e = elim (Bool-cases (y == x)) [
      | inl h ↦
          let fits : is_proxy_unit x ≡ false = ap is_proxy_unit (sym ((eq_iff y x).0 h)) ∙ e in
          rw fits refl
      | inr h ↦ rw h refl
    ]

mem-drop_name :
    (x name : String) (xs : List String) → mem x (drop_name name xs) ≡ (mem x xs && not (name == x))
unfolding drop_name
mem-drop_name x name [] = refl
mem-drop_name x name (y ∷ ys) =
    ground (arith, eq_iff y name, eq_iff name x, eq_iff y x, mem-drop_name x name ys)

mem-drop_units :
    (x : String) (names : List String) (u : Units)
    → (mem x (drop_units names u).files ≡ (mem x u.files && not (mem x names)))
      × (mem x (drop_units names u).disabled ≡ (mem x names || mem x u.disabled))
unfolding drop_units
mem-drop_units x [] u = (ground arith, refl)
mem-drop_units x (name ∷ names) u =
    let ih =
      mem-drop_units x names
        (record u { files = drop_name name u.files; disabled = name ∷ u.disabled }) in
    (ih.0 ∙ (rw (mem-drop_name x name u.files) (ground arith)), ih.1 ∙ (ground arith))

-- After the cleanup exactly the unit files that are not of an endpoint proxy are left, and the units that
-- systemctl was asked to disable, beside those of before, are exactly the proxy units that had a file or
-- were the first field of a listed line, whatever became of the calls.
pub cleanup_orphans-leaves :
    (x : String) (listed : List String) (u : Units)
    → (mem x (cleanup_orphans listed u).files ≡ (mem x u.files && not (is_proxy_unit x)))
      × (mem x (cleanup_orphans listed u).disabled ≡ (
          (is_proxy_unit x && (mem x u.files || mem x (first_fields listed))) || mem x u.disabled))
unfolding cleanup_orphans
cleanup_orphans-leaves x listed u =
    let lines = first_fields listed in
    let names = add_units lines (add_units u.files []) in
    let found : mem x names
        ≡ ((is_proxy_unit x && mem x lines) || (is_proxy_unit x && mem x u.files)) =
      mem-add_units x lines (add_units u.files [])
      ∙ (rw (mem-add_units x u.files []) (ground arith)) in
    let left = mem-drop_units x names u in
    (left.0 ∙ (rw found (ground arith)), left.1 ∙ (rw found (ground arith)))
