-- ===== src/Base/Every.antt =====
-- A predicate on every item of a list, by recursion, so that the tactics open it.
use mathlib.Core.List.{List, [], ◌∷◌, ◌++◌}

module _ {ℓ κ} {A : Type ℓ} (P : A → Type κ) where
  abbrev pub All : List A → Type κ
  All [] = Unit
  All (x ∷ xs) = P x × All xs

  pub All-append : (xs ys : List A) → All xs → All ys → All (xs ++ ys)
  All-append [] ys h k = k
  All-append (x ∷ xs) ys h k = (h.0, All-append xs ys h.1 k)

  -- One item taken out.
  pub All-remove : (xs : List A) (y : A) (ys : List A) → All (xs ++ (y ∷ ys)) → All (xs ++ ys)
  All-remove [] y ys h = h.1
  All-remove (x ∷ xs) y ys h = (h.0, All-remove xs y ys h.1)
