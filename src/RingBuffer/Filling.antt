-- ===== src/RingBuffer/Filling.antt =====
-- A write appends to the items that are there.
use virtual_usb.Base.{
  ℕ, ◌+◌, ◌-◌, ◌≤◌, ◌<◌, ◌≡◌, ap, sym, ◌∙◌, List, ◌++◌, length, get_elem?, length-append,
  get_elem?-append_left, inl, inr, arith, true, false, ◌≢◌,
}
use virtual_usb.RingBuffer.{Ring, len, write_segments}
use virtual_usb.RingBuffer.Offsets.{wrap, IsValid, len-max}
use virtual_usb.RingBuffer.Writing.{Put, write_segments-Put}
use virtual_usb.RingBuffer.Copies.{get_elem?-append_at}
use virtual_usb.RingBuffer.Refine.{window, contents, length-window, get_elem?-window, window_ext}
use native.Mathlib.Decide.{dec_lt}

module _ {A : Type 0} where
  -- `m` items are in the ring, and `xs` fits.
  module _ {cap : ℕ} (m : ℕ) {r : Ring A} (xs : List A) (a : r.roff < cap) (w : r.woff < cap)
      (s : length r.buf ≡ cap) (e : wrap cap (r.roff + m) ≡ r.woff) (l : m + length xs ≤ cap) where
    pub fit-Put : Put cap xs r (write_segments cap xs r)
    fit-Put =
        write_segments-Put cap r xs w s (ground arith)
          (elim (dec_lt r.woff r.roff) [ yes k ↦ inl (ground arith) | no k ↦ inr (omega arith) ])

    module _ {r' : Ring A} (t : Put cap xs r r') (f : length xs ≡ 0 → r.full ≡ true → m ≡ cap)
        (f' : r.full ≡ false → m < cap)
        (g : length xs ≢ 0 → r.full ≡ true → m + length xs ≡ cap) where
      pub Put-len : len cap r' ≡ m + length xs
      unfolding len
      Put-len = ground (arith, t.full, t.roff, t.woff)

      pub Put-IsValid : IsValid cap r'
      Put-IsValid = record {
        roff_in = omega (arith, t.roff);
        woff_in = ground (arith, t.woff);
        size = t.size;
        flag = λ h. ground (arith, t.full, t.roff, t.woff);
      }

      pub Put-contents : contents cap r' ≡ window r.roff m r.buf ++ xs
      Put-contents = sym (
          window_ext r'.buf (window r.roff m r.buf ++ xs) Put-IsValid.roff_in (len-max Put-IsValid)
            t.size
            (omega (
              arith,
              Put-len,
              length-append (window r.roff m r.buf) xs,
              length-window r.buf a (let q : m ≤ cap = omega arith in q) s,
            ))
            λ i k. elim (dec_lt i m) [
              | yes p ↦
                  get_elem?-append_left (window r.roff m r.buf) xs i
                    (omega (arith, length-window r.buf a (let q : m ≤ cap = omega arith in q) s))
                  ∙ (get_elem?-window r.buf a (let q : m ≤ cap = omega arith in q) s i p
                      ∙ (sym (
                            t.old (i + cap - m) (wrap cap (r.roff + i)) (omega arith) (omega arith)
                              (ground arith))
                          ∙ ap (λ o. get_elem? r'.buf (wrap cap (o + i))) (sym t.roff)))
              | no p ↦
                  get_elem?-append_at (window r.roff m r.buf) xs m (i - m) i
                    (length-window r.buf a (let q : m ≤ cap = omega arith in q) s) (omega arith)
                  ∙ (sym (
                        t.new (i - m) (wrap cap (r.roff + i)) (omega (arith, Put-len))
                          (ground (arith, Put-len)))
                      ∙ ap (λ o. get_elem? r'.buf (wrap cap (o + i))) (sym t.roff))
            ])
