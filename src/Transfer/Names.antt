-- ===== src/Transfer/Names.antt =====
-- A component of a legacy path stays inside its directory.
use Prim.Native.Char.{Char, code}
use re_remote_dev.Prelude.{
  Bool, List, String, [], all, all-take, ap, arith, false, if◌then◌else◌, length-take-le, not, refl,
  suc, take, true, zero, ℕ, ◌&&◌, ◌∙◌, ◌∷◌, ◌≡◌, ◌≤◌,
}
use re_remote_dev.Prelude.Text.{codes, len, take_text}
use re_remote_dev.Transfer.{head_or, is_special, is_unsafe, safe_chars, safe_component}

codes-take_text : (n : ℕ) (s : String) → codes (take_text n s) ≡ take n (codes s)
unfolding take_text
codes-take_text zero s = refl
codes-take_text (suc n) String.[] = refl
codes-take_text (suc n) (String.◌∷◌ c s) = ap (λ cs. code c ∷ cs) (codes-take_text n s)

abbrev pub is_safe : ℕ → Bool
is_safe c = not (is_unsafe c)

replace_unsafe-safe :
    (c : Char) (b : Bool)
    → is_unsafe (code c) ≡ b
    → is_safe (code (head_or c (if b then "_" else ""))) ≡ true
replace_unsafe-safe c true h = refl
replace_unsafe-safe c false h = rw (h) refl

and_true : (a b : Bool) → a ≡ true → b ≡ true → (a && b) ≡ true
and_true true b h k = k
and_true false b h k = h

codes-safe_chars : (s : String) → all is_safe (codes (safe_chars s)) ≡ true
unfolding safe_chars
codes-safe_chars String.[] = refl
codes-safe_chars (String.◌∷◌ c s) =
    and_true _ _ (replace_unsafe-safe c (is_unsafe (code c)) refl) (codes-safe_chars s)

is_special-take : (cs : List ℕ) → is_special (take 240 cs) ≡ is_special cs
is_special-take [] = refl
is_special-take (a ∷ []) = refl
is_special-take (a ∷ b ∷ []) = refl
is_special-take (a ∷ b ∷ c ∷ cs) = refl

-- Whatever the remote component is, the local one has no slash, backslash or control character, is not
-- empty and is neither of the two dot names, and has at most 240 characters.
pub safe_component-inside :
    (value : String)
    → (all is_safe (codes (safe_component value)) ≡ true)
      × (is_special (codes (safe_component value)) ≡ false)
      × (len (safe_component value) ≤ 240)
unfolding safe_component
safe_component-inside value = go (is_special (codes (safe_chars value))) refl
  where
    go :
        (b : Bool)
        → is_special (codes (safe_chars value)) ≡ b
        → let s = if b then "_" else take_text 240 (safe_chars value) in
          (all is_safe (codes s) ≡ true) × (is_special (codes s) ≡ false) × (len s ≤ 240)
    go true h = (refl, refl, ground arith)
    go false h = rw (codes-take_text 240 (safe_chars value)) (
      all-take is_safe 240 (codes (safe_chars value)) (codes-safe_chars value),
      is_special-take (codes (safe_chars value)) ∙ h,
      length-take-le 240 (codes (safe_chars value)),
    )
