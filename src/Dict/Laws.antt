-- ===== src/Dict/Laws.antt =====
-- What the operations of a dict do to look-ups, to uniqueness of keys and to counts.
use mathlib.Core.Option.{none-ne-some, some-injective}
use re_remote_dev.Dict.Defs.{Dict, Every, Unique, count, get, put, remove, tally}
use re_remote_dev.Prelude.{
  Bool, Bool-cases, String, [], arith, eq_iff, if◌then◌else◌, inl, inr, none, refl, some, subst,
  sym, true, ◌+◌, ◌<◌, ◌==◌, ◌∷◌, ◌≡◌,
}

module _ {ℓ} {V : Type ℓ} where
  pub get-put :
      (k j : String) (v : V) (d : Dict V) → get j (put k v d) ≡ (if k == j then some v else get j d)
  unfolding get put
  get-put k j v [] = refl
  get-put k j v ((i, w) ∷ d) = ground (arith, eq_iff k j, eq_iff i k, eq_iff i j, get-put k j v d)

  pub get-put_self : (k : String) (v : V) (d : Dict V) → get k (put k v d) ≡ some v
  get-put_self k v d = rw (get-put k k v d, (eq_iff k k).1 refl)

  pub get-remove :
      (k j : String) (d : Dict V) → get j (remove k d) ≡ (if k == j then none else get j d)
  unfolding get remove
  get-remove k j [] = ground arith
  get-remove k j ((i, w) ∷ d) = ground (arith, eq_iff k j, eq_iff i k, eq_iff i j, get-remove k j d)

  pub remove-put : (k : String) (v : V) (d : Dict V) → remove k (put k v d) ≡ remove k d
  unfolding remove put
  remove-put k v [] = ground (arith, eq_iff k k)
  remove-put k v ((i, w) ∷ d) = ground (arith, eq_iff i k, eq_iff k k, remove-put k v d)

  pub put-Unique : (k : String) (v : V) (d : Dict V) → Unique d → Unique (put k v d)
  unfolding get put
  put-Unique k v [] u = (refl, tt)
  put-Unique k v ((i, w) ∷ d) (fresh, u) =
      ground (arith, eq_iff i k, eq_iff k i, get-put k i v d, put-Unique k v d u)

  pub remove-Unique : (k : String) (d : Dict V) → Unique d → Unique (remove k d)
  unfolding get remove
  remove-Unique k [] u = tt
  remove-Unique k ((i, w) ∷ d) (fresh, u) = ground (arith, get-remove k i d, remove-Unique k d u)

  remove_absent : (k : String) (d : Dict V) → get k d ≡ none → remove k d ≡ d
  unfolding get remove
  remove_absent k [] h = refl
  remove_absent k ((i, w) ∷ d) h = ground (arith, remove_absent k d)

  module _ (p : V → Bool) where
    pub count-put :
        (k : String) (v : V) (d : Dict V)
        → count p (put k v d) + tally p (get k d) ≡ count p d + tally p (some v)
    unfolding get put count
    count-put k v [] = ground arith
    count-put k v ((i, w) ∷ d) = ground (arith, count-put k v d)

    pub count-remove :
        (k : String) (d : Dict V) → Unique d → count p (remove k d) + tally p (get k d) ≡ count p d
    unfolding get remove count
    count-remove k [] u = refl
    count-remove k ((i, w) ∷ d) (fresh, u) =
        ground (arith, eq_iff i k, count-remove k d u, remove_absent k d)

    pub count-pos :
        (k : String) (v : V) (d : Dict V) → get k d ≡ some v → p v ≡ true → 0 < count p d
    unfolding get count
    count-pos k v [] h q = cc
    count-pos k v ((i, w) ∷ d) h q = ground (arith, count-pos k v d)

  module _ {κ} (P : String → V → Type κ) where
    pub put-Every : (k : String) (v : V) (d : Dict V) → P k v → Every P d → Every P (put k v d)
    put-Every k v d p h j w e = elim (Bool-cases (k == j)) [
      | inl t ↦
          subst (λ x. P x w) ((eq_iff k j).0 t)
            (subst (P k) (some-injective v w (sym (rw (get-put k j v d, t) at (sym e)))) p)
      | inr t ↦ h j w (rw (get-put k j v d, t) at e)
    ]

    pub remove-Every : (k : String) (d : Dict V) → Every P d → Every P (remove k d)
    remove-Every k d h j w e = elim (Bool-cases (k == j)) [
      | inl t ↦
          let absent : none ≡ some w = rw (get-remove k j d, t) at e in
          absurd (none-ne-some w absent)
      | inr t ↦ h j w (rw (get-remove k j d, t) at e)
    ]

pub ruleset dict_laws = (get-put, get-remove)
