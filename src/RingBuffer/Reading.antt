-- ===== src/RingBuffer/Reading.antt =====
-- `read`: its two segments are one walk round the ring.
use virtual_usb.Base.{
  ℕ, ◌+◌, ◌-◌, ◌≤◌, ◌<◌, min, ◌≡◌, ap, sym, ◌∙◌, List, length, take, drop, get_elem?, length-append,
  length-take, length-drop, get_elem?-append_left, get_elem?-take, get_elem?-drop, arith,
  if◌then◌else◌, get_elem?_ext, get_elem?-end, false, ◌==◌, [], ap₂,
}
use virtual_usb.RingBuffer.{Ring, len, slice, read_segments, read_second}
use virtual_usb.RingBuffer.Offsets.{wrap, IsValid, len-max, wrap-len}
use virtual_usb.RingBuffer.Copies.{get_elem?-append_at, length-slice, get_elem?-slice}
use virtual_usb.RingBuffer.Refine.{contents, get_elem?-window, window_ext, length-contents}
use native.Mathlib.Decide.{dec_lt}

module _ {A : Type 0} where
  -- What a read of `n` items gives and leaves.
  pub record Taken (cap n : ℕ) (r : Ring A) (p : List A × Ring A) : Type 0 where
    pub count : length p.0 ≡ n
    pub items : (i : ℕ) → i < n → get_elem? p.0 i ≡ get_elem? r.buf (wrap cap (r.roff + i))
    pub roff : p.1.roff ≡ wrap cap (r.roff + n)
    pub woff : p.1.woff ≡ r.woff
    pub buf : p.1.buf ≡ r.buf
    pub full : p.1.full ≡ (if n == 0 then r.full else false)

  module _ {cap : ℕ} {r : Ring A} (v : IsValid cap r) where
    one_segment : (n : ℕ) → n ≤ len cap r → n ≤ cap - r.roff → Taken cap n r (read_segments cap n r)
    unfolding read_segments read_second
    one_segment n h k = record {
      count = ground (
        arith,
        v.roff_in,
        v.size,
        length-slice r.roff n r.buf,
        length-append (slice r.roff n r.buf) [],
      );
      items = λ i m. ground (
        arith,
        v.roff_in,
        v.size,
        length-slice r.roff n r.buf,
        get_elem?-append_left (slice r.roff n r.buf) [] i,
        get_elem?-slice r.roff n r.buf i,
      );
      roff = ground (arith, len-max v, v.roff_in);
      woff = ground arith;
      buf = ground arith;
      full = ground arith;
    }

    two_segments :
        (n : ℕ) → n ≤ len cap r → cap - r.roff < n → Taken cap n r (read_segments cap n r)
    unfolding read_segments read_second
    two_segments n h k = record {
      count = ground (
        arith,
        len-max v,
        second,
        length-slice r.roff len1 r.buf,
        length-slice 0 len2 r.buf,
        length-append (slice r.roff len1 r.buf) (slice 0 len2 r.buf),
        v.roff_in,
        v.size,
      );
      items = λ i m. elim (dec_lt i len1) [
        | yes p ↦ ground (
          arith,
          second,
          v.roff_in,
          v.size,
          length-slice r.roff len1 r.buf,
          get_elem?-append_left (slice r.roff len1 r.buf) (slice 0 len2 r.buf) i,
          get_elem?-slice r.roff len1 r.buf i,
        )
        | no p ↦ ground (
          arith,
          second,
          v.roff_in,
          v.size,
          length-slice r.roff len1 r.buf,
          get_elem?-append_at (slice r.roff len1 r.buf) (slice 0 len2 r.buf) len1 (i - len1) i,
          get_elem?-slice 0 len2 r.buf (i - len1),
        )
      ];
      roff = ground (arith, len-max v, v.roff_in, wrap-len v);
      woff = ground arith;
      buf = ground arith;
      full = ground arith;
    }
      where
        len1 : ℕ
        len1 = cap - r.roff

        len2 : ℕ
        len2 = n - (cap - r.roff)

        second : min (n - min n (cap - r.roff)) r.woff ≡ n - (cap - r.roff)
        second = ground (arith, len-max v, v.roff_in, wrap-len v)

    pub read_segments-Taken : (n : ℕ) → n ≤ len cap r → Taken cap n r (read_segments cap n r)
    read_segments-Taken n h = elim (dec_lt (cap - r.roff) n) [
      | yes k ↦ two_segments n h k
      | no k ↦ one_segment n h (omega arith)
    ]

  module _ {cap n : ℕ} {r : Ring A} (v : IsValid cap r) (h : n ≤ len cap r) {p : List A × Ring A}
      (t : Taken cap n r p) where
    pub Taken-IsValid : IsValid cap p.1
    Taken-IsValid = record {
      roff_in = ground (arith, t.roff, len-max v, v.roff_in);
      woff_in = ground (arith, t.woff, v.woff_in);
      size = ap length t.buf ∙ v.size;
      flag = λ e. ground (arith, t.full, t.roff, t.woff, v.flag, v.roff_in);
    }

    Taken-len : len cap p.1 ≡ len cap r - n
    unfolding len
    Taken-len = ground (arith, t.full, t.roff, t.woff, v.flag, v.roff_in, v.woff_in, h)

    pub Taken-read : p.0 ≡ take n (contents cap r)
    Taken-read = get_elem?_ext p.0 (take n (contents cap r)) λ i. elim (dec_lt i n) [
      | yes k ↦
          t.items i k
          ∙ sym (
              get_elem?-take n (contents cap r) i k
              ∙ get_elem?-window r.buf v.roff_in (len-max v) v.size i (omega arith))
      | no k ↦
          get_elem?-end p.0 i (omega (arith, t.count))
          ∙ sym (
              get_elem?-end (take n (contents cap r)) i
                (omega (arith, length-take n (contents cap r))))
    ]

    pub Taken-left : contents cap p.1 ≡ drop n (contents cap r)
    Taken-left = sym (
        window_ext p.1.buf (drop n (contents cap r)) Taken-IsValid.roff_in (len-max Taken-IsValid)
          Taken-IsValid.size
          (omega (arith, Taken-len, length-drop n (contents cap r), length-contents v))
          λ i k.
            get_elem?-drop n (contents cap r) i
            ∙ (get_elem?-window r.buf v.roff_in (len-max v) v.size (n + i)
                  (omega (arith, Taken-len))
                ∙ ap₂ get_elem? (sym t.buf)
                    (ground (arith, Taken-len, t.roff, v.roff_in, len-max v))))
