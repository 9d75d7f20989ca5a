-- ===== src/Base/Points.antt =====
-- Lists compared place by place.
use Prim.Native.Nat.{ℕ, zero, suc, ◌+◌, ◌≤◌, ◌<◌}
use mathlib.Core.Path.{◌≡◌, refl, ap, ap₂, ◌∙◌}
use mathlib.Core.List.{List, [], ◌∷◌, ◌++◌}
use mathlib.Core.Option.{none, some}
use native.Mathlib.Omega.{arith}
use virtual_usb.Base.Lists.{length, get_elem?, take, drop}

module _ {ℓ} {A : Type ℓ} where
  some_inj : {x y : A} → some x ≡ some y → x ≡ y
  some_inj e = cc

  pub get_elem?-end : (xs : List A) (i : ℕ) → length xs ≤ i → get_elem? xs i ≡ none
  get_elem?-end [] i h = refl
  get_elem?-end (x ∷ xs) zero h = absurd (omega arith)
  get_elem?-end (x ∷ xs) (suc i) h = get_elem?-end xs i (omega arith)

  no_item : {x : A} → none ≡ some x → ⊥
  no_item e = cc

  no_place : {x : A} → some x ≡ none → ⊥
  no_place e = cc

  -- Lists with the same item at each place are the same list.
  pub get_elem?_ext : (xs ys : List A) → ((i : ℕ) → get_elem? xs i ≡ get_elem? ys i) → xs ≡ ys
  get_elem?_ext [] [] h = refl
  get_elem?_ext [] (y ∷ ys) h = absurd (no_item (h 0))
  get_elem?_ext (x ∷ xs) [] h = absurd (no_place (h 0))
  get_elem?_ext (x ∷ xs) (y ∷ ys) h =
      ap₂ ◌∷◌ (some_inj (h 0)) (get_elem?_ext xs ys (λ i. h (suc i)))

  pub get_elem?-append_left :
      (xs ys : List A) (i : ℕ) → i < length xs → get_elem? (xs ++ ys) i ≡ get_elem? xs i
  get_elem?-append_left [] ys i h = absurd (omega arith)
  get_elem?-append_left (x ∷ xs) ys zero h = refl
  get_elem?-append_left (x ∷ xs) ys (suc i) h = get_elem?-append_left xs ys i (omega arith)

  pub get_elem?-append_right :
      (xs ys : List A) (i : ℕ) → get_elem? (xs ++ ys) (length xs + i) ≡ get_elem? ys i
  get_elem?-append_right [] ys i = ap (get_elem? ys) (omega arith)
  get_elem?-append_right (x ∷ xs) ys i =
      ap (get_elem? (x ∷ (xs ++ ys)))
        (let e : suc (length xs) + i ≡ suc (length xs + i) = omega arith in e)
      ∙ get_elem?-append_right xs ys i

  pub get_elem?-take :
      (n : ℕ) (xs : List A) (i : ℕ) → i < n → get_elem? (take n xs) i ≡ get_elem? xs i
  get_elem?-take zero xs i h = absurd (omega arith)
  get_elem?-take (suc n) [] i h = refl
  get_elem?-take (suc n) (x ∷ xs) zero h = refl
  get_elem?-take (suc n) (x ∷ xs) (suc i) h = get_elem?-take n xs i (omega arith)

  pub get_elem?-drop :
      (n : ℕ) (xs : List A) (i : ℕ) → get_elem? (drop n xs) i ≡ get_elem? xs (n + i)
  get_elem?-drop zero xs i = ap (get_elem? xs) (omega arith)
  get_elem?-drop (suc n) [] i = refl
  get_elem?-drop (suc n) (x ∷ xs) i =
      get_elem?-drop n xs i
      ∙ ap (get_elem? (x ∷ xs)) (let e : suc (n + i) ≡ suc n + i = omega arith in e)
