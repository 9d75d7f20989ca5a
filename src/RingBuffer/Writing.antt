-- ===== src/RingBuffer/Writing.antt =====
-- The two segments of `write` are one walk round the ring.
use virtual_usb.Base.{
  ℕ, ◌+◌, ◌-◌, ◌≤◌, ◌<◌, min, ◌≡◌, refl, ap, ◌∙◌, List, length, take, drop, get_elem?, length-take,
  length-drop, get_elem?-take, get_elem?-drop, ◌⊎◌, inl, inr, arith, if◌then◌else◌, true, ◌==◌,
  take_all, ==_false,
}
use virtual_usb.RingBuffer.{Ring, paste, write_segments, write_second}
use virtual_usb.RingBuffer.Offsets.{wrap}
use virtual_usb.RingBuffer.Copies.{length-paste, paste_before, paste_in, paste_after}
use native.Mathlib.Decide.{dec_lt}

module _ {A : Type 0} where
  -- What a write of `xs` leaves.
  pub record Put (cap : ℕ) (xs : List A) (r r' : Ring A) : Type 0 where
    pub size : length r'.buf ≡ cap
    pub roff : r'.roff ≡ r.roff
    pub woff : r'.woff ≡ wrap cap (r.woff + length xs)
    pub new :
        (i j : ℕ) → i < length xs → j ≡ wrap cap (r.woff + i) → get_elem? r'.buf j ≡ get_elem? xs i
    pub old :
        (i j : ℕ)
        → length xs ≤ i
        → i < cap
        → j ≡ wrap cap (r.woff + i)
        → get_elem? r'.buf j ≡ get_elem? r.buf j
    pub full :
        r'.full ≡ (if length xs == 0 then r.full else if r'.woff == r'.roff then true else r.full)

  module _ (cap : ℕ) (r : Ring A) (xs : List A) (w : r.woff < cap) (s : length r.buf ≡ cap) where
    one_segment : length xs ≤ cap - r.woff → Put cap xs r (write_segments cap xs r)
    unfolding write_segments write_second
    one_segment k = record {
      size = ground (arith, w, s, d, t, length-paste r.woff xs r.buf);
      roff = ground (arith, d);
      woff = ground (arith, d, w);
      new = λ i j m e. ground (arith, d, t, w, s, paste_in r.woff xs r.buf i j);
      old = λ i j m m' e.
          ground (arith, d, t, w, s, paste_before r.woff xs r.buf j, paste_after r.woff xs r.buf j);
      full = ground (arith, d);
    }
      where
        len1 : ℕ
        len1 = min (length xs) (cap - r.woff)

        d : length (drop len1 xs) ≡ 0
        d = omega (arith, length-drop len1 xs)

        t : take len1 xs ≡ xs
        t = take_all len1 xs (omega arith)

    module _ (k : cap - r.woff < length xs) (l : length xs ≤ (cap - r.woff) + r.roff)
        (o : r.roff ≤ r.woff) where
      abbrev len1 : ℕ
      len1 = min (length xs) (cap - r.woff)

      length-left : length (drop len1 xs) ≡ length xs - (cap - r.woff)
      length-left = omega (arith, length-drop len1 xs)

      length-first : length (take len1 xs) ≡ cap - r.woff
      length-first = omega (arith, length-take len1 xs)

      take-left : take (min (length (drop len1 xs)) r.roff) (drop len1 xs) ≡ drop len1 xs
      take-left =
          take_all (min (length (drop len1 xs)) r.roff) (drop len1 xs) (omega (arith, length-left))

      abbrev pasted : List A
      pasted = paste 0 (drop len1 xs) (paste r.woff (take len1 xs) r.buf)

      segments_buf : (write_segments cap xs r).buf ≡ pasted
      unfolding write_segments write_second
      segments_buf =
          rw (==_false (length (drop len1 xs)) 0 (λ z. omega (arith, length-left)), take-left) refl

      length-pasted : length pasted ≡ cap
      length-pasted = omega (
        arith,
        s,
        w,
        length-left,
        length-first,
        length-paste r.woff (take len1 xs) r.buf,
        length-paste 0 (drop len1 xs) (paste r.woff (take len1 xs) r.buf),
      )

      pasted-new :
          (i j : ℕ)
          → i < length xs
          → j ≡ wrap cap (r.woff + i)
          → get_elem? pasted j ≡ get_elem? xs i
      pasted-new i j m e = elim (dec_lt i len1) [
        | yes p ↦
            paste_after 0 (drop len1 xs) (paste r.woff (take len1 xs) r.buf) j (omega arith)
              (ground (arith, length-left, w))
            ∙ (paste_in r.woff (take len1 xs) r.buf i j (omega (arith, w, s))
                  (omega (arith, length-first)) (ground (arith, w))
                ∙ get_elem?-take len1 xs i p)
        | no p ↦
            paste_in 0 (drop len1 xs) (paste r.woff (take len1 xs) r.buf) (i - len1) j (omega arith)
              (omega (arith, length-left)) (ground (arith, w))
            ∙ (get_elem?-drop len1 xs (i - len1) ∙ ap (get_elem? xs) (omega arith))
      ]

      pasted-old :
          (i j : ℕ)
          → length xs ≤ i
          → i < cap
          → j ≡ wrap cap (r.woff + i)
          → get_elem? pasted j ≡ get_elem? r.buf j
      pasted-old i j m m' e =
          paste_after 0 (drop len1 xs) (paste r.woff (take len1 xs) r.buf) j (omega arith)
            (ground (arith, length-left, w))
          ∙ paste_before r.woff (take len1 xs) r.buf j (omega (arith, w, s)) (ground (arith, w))

      two_segments : Put cap xs r (write_segments cap xs r)
      unfolding write_segments write_second
      two_segments = record {
        size = ap length segments_buf ∙ length-pasted;
        roff = ground arith;
        woff = ground (arith, length-left, w);
        new = λ i j m e. ap (λ b. get_elem? b j) segments_buf ∙ pasted-new i j m e;
        old = λ i j m m' e. ap (λ b. get_elem? b j) segments_buf ∙ pasted-old i j m m' e;
        full = ground (arith, length-left);
      }

    pub write_segments-Put :
        length xs ≤ (cap - r.woff) + r.roff
        → length xs ≤ cap - r.woff ⊎ (r.roff ≤ r.woff)
        → Put cap xs r (write_segments cap xs r)
    write_segments-Put l (inl k) = one_segment k
    write_segments-Put l (inr o) = elim (dec_lt (cap - r.woff) (length xs)) [
      | yes k ↦ two_segments k l o
      | no k ↦ one_segment (omega arith)
    ]
