-- ===== src/RingBuffer/Copies.antt =====
-- What the copies out of the buffer and into it leave at each place.
use virtual_usb.Base.{
  ℕ, ◌+◌, ◌-◌, ◌≤◌, ◌<◌, ◌≡◌, refl, ap, ◌∙◌, List, ◌++◌, length, take, drop, get_elem?,
  length-append, length-take, length-drop, get_elem?-append_left, get_elem?-append_right,
  get_elem?-take, get_elem?-drop, arith,
}
use virtual_usb.RingBuffer.{slice, paste}

module _ {ℓ} {A : Type ℓ} where
  pub get_elem?-append_at :
      (xs ys : List A) (n i j : ℕ)
      → length xs ≡ n
      → j ≡ n + i
      → get_elem? (xs ++ ys) j ≡ get_elem? ys i
  get_elem?-append_at xs ys n i j e h =
      ap (get_elem? (xs ++ ys)) (omega arith) ∙ get_elem?-append_right xs ys i

  pub length-slice :
      (off n : ℕ) (buf : List A) → off + n ≤ length buf → length (slice off n buf) ≡ n
  length-slice off n buf h = omega (arith, length-take n (drop off buf), length-drop off buf)

  pub get_elem?-slice :
      (off n : ℕ) (buf : List A) (i : ℕ)
      → i < n
      → get_elem? (slice off n buf) i ≡ get_elem? buf (off + i)
  get_elem?-slice off n buf i h = get_elem?-take n (drop off buf) i h ∙ get_elem?-drop off buf i

  pub length-paste :
      (off : ℕ) (xs buf : List A)
      → off + length xs ≤ length buf
      → length (paste off xs buf) ≡ length buf
  length-paste off xs buf h = omega (
    arith,
    length-append (take off buf) (xs ++ drop (off + length xs) buf),
    length-append xs (drop (off + length xs) buf),
    length-take off buf,
    length-drop (off + length xs) buf,
  )

  pub paste_before :
      (off : ℕ) (xs buf : List A) (j : ℕ)
      → off ≤ length buf
      → j < off
      → get_elem? (paste off xs buf) j ≡ get_elem? buf j
  paste_before off xs buf j h k =
      get_elem?-append_left (take off buf) (xs ++ drop (off + length xs) buf) j
        (omega (arith, length-take off buf))
      ∙ get_elem?-take off buf j k

  pub paste_in :
      (off : ℕ) (xs buf : List A) (i j : ℕ)
      → off ≤ length buf
      → i < length xs
      → j ≡ off + i
      → get_elem? (paste off xs buf) j ≡ get_elem? xs i
  paste_in off xs buf i j h k e =
      get_elem?-append_at (take off buf) (xs ++ drop (off + length xs) buf) off i j
        (omega (arith, length-take off buf)) e
      ∙ get_elem?-append_left xs (drop (off + length xs) buf) i k

  pub paste_after :
      (off : ℕ) (xs buf : List A) (j : ℕ)
      → off ≤ length buf
      → off + length xs ≤ j
      → get_elem? (paste off xs buf) j ≡ get_elem? buf j
  paste_after off xs buf j h k =
      get_elem?-append_at (take off buf) (xs ++ drop (off + length xs) buf) off (j - off) j
        (omega (arith, length-take off buf)) (omega arith)
      ∙ (get_elem?-append_at xs (drop (off + length xs) buf) (length xs) (j - off - length xs)
            (j - off) refl (omega arith)
          ∙ (get_elem?-drop (off + length xs) buf (j - off - length xs)
              ∙ ap (get_elem? buf) (omega arith)))
