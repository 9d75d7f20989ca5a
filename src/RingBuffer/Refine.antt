-- ===== src/RingBuffer/Refine.antt =====
-- A valid ring behaves as the queue of its items.
use virtual_usb.Base.{
  ℕ, ◌+◌, ◌-◌, ◌≤◌, ◌<◌, ◌≡◌, ap, sym, ◌∙◌, List, ◌++◌, length, take, drop, get_elem?,
  length-append, length-take, length-drop, get_elem?-append_left, get_elem?-take, get_elem?-drop,
  arith, get_elem?_ext, get_elem?-end,
}
use virtual_usb.RingBuffer.{Ring, len}
use virtual_usb.RingBuffer.Offsets.{wrap, IsValid, len-max}
use virtual_usb.RingBuffer.Copies.{get_elem?-append_at}
use native.Mathlib.Decide.{dec_lt}

module _ {ℓ} {A : Type ℓ} where
  -- `m` items from the place `roff` on.
  abbrev pub window : ℕ → ℕ → List A → List A
  window roff m buf = take m (drop roff buf ++ take roff buf)

  -- The items of the ring, oldest first.
  abbrev pub contents : ℕ → Ring A → List A
  contents cap r = window r.roff (len cap r) r.buf

  rotated :
      (roff : ℕ) (buf : List A) (i : ℕ)
      → roff ≤ length buf
      → i < length buf
      → get_elem? (drop roff buf ++ take roff buf) i ≡ get_elem? buf (wrap (length buf) (roff + i))
  rotated roff buf i h k = elim (dec_lt (roff + i) (length buf)) [
    | yes p ↦
        get_elem?-append_left (drop roff buf) (take roff buf) i
          (omega (arith, length-drop roff buf))
        ∙ (get_elem?-drop roff buf i ∙ ap (get_elem? buf) (ground arith))
    | no p ↦
        get_elem?-append_at (drop roff buf) (take roff buf) (length buf - roff)
          (roff + i - length buf) i (length-drop roff buf) (omega arith)
        ∙ (get_elem?-take roff buf (roff + i - length buf) (omega arith)
            ∙ ap (get_elem? buf) (ground arith))
  ]

  module _ {cap roff m : ℕ} (buf : List A) (h : roff < cap) (l : m ≤ cap)
      (e : length buf ≡ cap) where
    pub length-window : length (window roff m buf) ≡ m
    length-window = omega (
      arith,
      length-take m (drop roff buf ++ take roff buf),
      length-append (drop roff buf) (take roff buf),
      length-drop roff buf,
      length-take roff buf,
    )

    pub get_elem?-window :
        (i : ℕ) → i < m → get_elem? (window roff m buf) i ≡ get_elem? buf (wrap cap (roff + i))
    get_elem?-window i k =
        get_elem?-take m (drop roff buf ++ take roff buf) i k
        ∙ (rotated roff buf i (omega arith) (omega arith)
            ∙ ap (λ c. get_elem? buf (wrap c (roff + i))) e)

  pub length-contents : {cap : ℕ} {r : Ring A} → IsValid cap r → length (contents cap r) ≡ len cap r
  length-contents {r = r} v = length-window r.buf v.roff_in (len-max v) v.size

  -- A list that has the items of a window is the window.
  pub window_ext :
      {cap roff m : ℕ} (buf xs : List A)
      → roff < cap
      → m ≤ cap
      → length buf ≡ cap
      → length xs ≡ m
      → ((i : ℕ) → i < m → get_elem? xs i ≡ get_elem? buf (wrap cap (roff + i)))
      → xs ≡ window roff m buf
  window_ext {cap} {roff} {m} buf xs h l e c f = get_elem?_ext xs (window roff m buf) λ i.
      elim (dec_lt i m) [
        | yes p ↦ f i p ∙ sym (get_elem?-window buf h l e i p)
        | no p ↦
            get_elem?-end xs i (omega arith)
            ∙ sym (get_elem?-end (window roff m buf) i (omega (arith, length-window buf h l e)))
      ]
