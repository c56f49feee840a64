-- ===== src/Prelude/Sort.antt =====
-- Python's stable `sorted`, as insertion by a Boolean order, and what every caller relies on.
use mathlib.Core.Path.{◌≡◌}
use mathlib.Core.Bool.{Bool, true, false}
use mathlib.Core.List.{List, [], ◌∷◌, Perm}
use mathlib.Core.List.Perm
use q_bittorrent_rss_rules.Prelude.Lists.{All}
use q_bittorrent_rss_rules.Prelude.Tests.{if◌then◌else◌, Bool-cases}
use mathlib.Core.Logic.{inl, inr}

module _ {ℓ} {A : Type ℓ} (le : A → A → Bool) where
  unfoldable pub insert_by : A → List A → List A
  insert_by x [] = x ∷ []
  insert_by x (y ∷ ys) = if le x y then x ∷ y ∷ ys else y ∷ insert_by x ys

  -- `sorted(xs, key=…)`: equal keys keep their order.
  unfoldable pub sort_by : List A → List A
  unfolding insert_by
  sort_by [] = []
  sort_by (x ∷ xs) = insert_by x (sort_by xs)

  -- `x` is below every element.
  abbrev pub BelowAll : A → List A → Type 0
  BelowAll x [] = Unit
  BelowAll x (y ∷ ys) = (le x y ≡ true) × BelowAll x ys

  abbrev pub IsSorted : List A → Type 0
  IsSorted [] = Unit
  IsSorted (x ∷ xs) = BelowAll x xs × IsSorted xs

  pub insert_by-perm : (x : A) (ys : List A) → Perm (insert_by x ys) (x ∷ ys)
  unfolding insert_by
  insert_by-perm x [] = Perm.refl _
  insert_by-perm x (y ∷ ys) = elim (Bool-cases (le x y)) [
    | inl h ↦ rw h (Perm.refl _)
    | inr h ↦ rw h (Perm.trans (Perm.cons y (insert_by-perm x ys)) (Perm.swap _ _ _))
  ]

  pub sort_by-perm : (xs : List A) → Perm (sort_by xs) xs
  unfolding sort_by
  sort_by-perm [] = Perm.refl _
  sort_by-perm (x ∷ xs) = Perm.trans (insert_by-perm x (sort_by xs)) (Perm.cons x (sort_by-perm xs))

module _ {ℓ κ} {A : Type ℓ} (le : A → A → Bool) (P : A → Type κ) where
  insert_by-All : (x : A) (ys : List A) → P x → All P ys → All P (insert_by le x ys)
  unfolding insert_by
  insert_by-All x [] p h = (p, tt)
  insert_by-All x (y ∷ ys) p (q, h) = elim (Bool-cases (le x y)) [
    | inl e ↦ rw e (p, (q, h))
    | inr e ↦ rw e (q, insert_by-All x ys p h)
  ]

  pub sort_by-All : (xs : List A) → All P xs → All P (sort_by le xs)
  unfolding sort_by
  sort_by-All [] h = tt
  sort_by-All (x ∷ xs) (p, h) = insert_by-All x (sort_by le xs) p (sort_by-All xs h)

module _ {ℓ} {A : Type ℓ} (le : A → A → Bool)
    (le_total : (x y : A) → le x y ≡ false → le y x ≡ true)
    (le_trans : (x y z : A) → le x y ≡ true → le y z ≡ true → le x z ≡ true) where
  BelowAll-trans : (x y : A) (zs : List A) → le x y ≡ true → BelowAll le y zs → BelowAll le x zs
  BelowAll-trans x y [] h b = tt
  BelowAll-trans x y (z ∷ zs) h (b, c) = (le_trans x y z h b, BelowAll-trans x y zs h c)

  BelowAll-insert_by :
      (y x : A) (zs : List A) → le y x ≡ true → BelowAll le y zs → BelowAll le y (insert_by le x zs)
  unfolding insert_by
  BelowAll-insert_by y x [] h b = (h, tt)
  BelowAll-insert_by y x (z ∷ zs) h (b, c) = elim (Bool-cases (le x z)) [
    | inl e ↦ rw e (h, (b, c))
    | inr e ↦ rw e (b, BelowAll-insert_by y x zs h c)
  ]

  insert_by-IsSorted : (x : A) (ys : List A) → IsSorted le ys → IsSorted le (insert_by le x ys)
  unfolding insert_by
  insert_by-IsSorted x [] s = (tt, tt)
  insert_by-IsSorted x (y ∷ ys) (b, s) = elim (Bool-cases (le x y)) [
    | inl e ↦ rw e ((e, BelowAll-trans x y ys e b), (b, s))
    | inr e ↦ rw e (BelowAll-insert_by y x ys (le_total x y e) b, insert_by-IsSorted x ys s)
  ]

  pub sort_by-IsSorted : (xs : List A) → IsSorted le (sort_by le xs)
  unfolding sort_by
  sort_by-IsSorted [] = tt
  sort_by-IsSorted (x ∷ xs) = insert_by-IsSorted x (sort_by le xs) (sort_by-IsSorted xs)
