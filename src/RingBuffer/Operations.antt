-- ===== src/RingBuffer/Operations.antt =====
-- Each operation of a valid ring is the operation of the queue of its items.
use virtual_usb.Base.{
  ℕ, ◌+◌, ◌-◌, ◌≤◌, ◌<◌, ◌≡◌, ◌≢◌, ap, sym, ◌∙◌, List, ◌++◌, length, drop, get_elem?, length-drop,
  get_elem?-drop, arith, true, false, some, none,
}
use virtual_usb.RingBuffer.{Ring, len, space, read, write, read_segments, write_segments, make_room}
use virtual_usb.RingBuffer.Offsets.{wrap, IsValid, len-max, wrap-len, len_full, len_not_full}
use virtual_usb.RingBuffer.Refine.{window, contents, get_elem?-window, window_ext, length-contents}
use virtual_usb.RingBuffer.Writing.{Put}
use virtual_usb.RingBuffer.Filling.{fit-Put, Put-IsValid, Put-contents}

module _ {A : Type 0} {cap : ℕ} {r : Ring A} (v : IsValid cap r) where
  pub read_ok : (n : ℕ) → n ≤ len cap r → read cap n r ≡ some (read_segments cap n r)
  unfolding read
  read_ok n h = ground arith

  pub read_aborts : (n : ℕ) → len cap r < n → read cap n r ≡ none
  unfolding read
  read_aborts n h = ground arith

  module _ (xs : List A) where
    pub write_ok : length xs ≤ space cap r → write cap xs r ≡ some (write_segments cap xs r)
    unfolding write
    write_ok h = ground arith

    pub write_aborts : space cap r < length xs → write cap xs r ≡ none
    unfolding write
    write_aborts h = ground arith

    module _ (h : length xs ≤ cap - len cap r) where
      abbrev fits : len cap r + length xs ≤ cap
      fits = omega (arith, len-max v, h)

      abbrev put : Put cap xs r (write_segments cap xs r)
      put = fit-Put (len cap r) xs v.roff_in v.woff_in v.size (wrap-len v) fits

      pub write_segments-IsValid : IsValid cap (write_segments cap xs r)
      write_segments-IsValid =
          Put-IsValid (len cap r) xs v.roff_in v.woff_in v.size (wrap-len v) fits put
            (λ _ e. len_full v e) (len_not_full v) (λ z e. absurd (z (omega (arith, len_full v e))))

      pub write_segments-contents : contents cap (write_segments cap xs r) ≡ contents cap r ++ xs
      write_segments-contents =
          Put-contents (len cap r) xs v.roff_in v.woff_in v.size (wrap-len v) fits put
            (λ _ e. len_full v e) (len_not_full v) (λ z e. absurd (z (omega (arith, len_full v e))))

  module _ (n : ℕ) where
    abbrev pub overflow : ℕ
    overflow = n - space cap r

    module _ (h : n ≤ cap) where
      room_roff : (make_room cap n r).roff ≡ wrap cap (r.roff + overflow)
      unfolding make_room space
      room_roff = ground (arith, v.roff_in, len-max v)

      room_rest :
          ((make_room cap n r).woff ≡ r.woff)
          × ((make_room cap n r).buf ≡ r.buf)
          × ((make_room cap n r).full ≡ r.full)
      unfolding make_room space
      room_rest = ground arith

      room_window :
          window (make_room cap n r).roff (len cap r - overflow) r.buf
          ≡ drop overflow (contents cap r)
      room_window = sym (
          window_ext r.buf (drop overflow (contents cap r))
            (ground (arith, room_roff, v.roff_in, len-max v)) (omega (arith, len-max v)) v.size
            (omega (arith, length-drop overflow (contents cap r), length-contents v))
            λ i k.
              get_elem?-drop overflow (contents cap r) i
              ∙ (get_elem?-window r.buf v.roff_in (len-max v) v.size (overflow + i) (omega arith)
                  ∙ ap (get_elem? r.buf) (ground (arith, room_roff, v.roff_in, len-max v))))

      room_at :
          wrap cap ((make_room cap n r).roff + (len cap r - overflow)) ≡ (make_room cap n r).woff
      unfolding space
      room_at = ground (arith, room_roff, room_rest, wrap-len v, v.roff_in, v.woff_in, len-max v)

  module _ (xs : List A) (h : length xs ≤ cap) where
    abbrev room : Ring A
    room = make_room cap (length xs) r

    abbrev left : ℕ
    left = len cap r - overflow (length xs)

    room_in : room.roff < cap
    room_in = ground (arith, room_roff (length xs) h, v.roff_in, len-max v)

    left_fits : left + length xs ≤ cap
    unfolding space
    left_fits = omega (arith, len-max v, h)

    room_woff : room.woff < cap
    room_woff = omega (arith, room_rest (length xs) h, v.woff_in)

    room_size : length room.buf ≡ cap
    room_size = ap length (room_rest (length xs) h).1 ∙ v.size

    room_full : room.full ≡ r.full
    room_full = (room_rest (length xs) h).2

    over_put : Put cap xs room (write_segments cap xs room)
    over_put = fit-Put left xs room_in room_woff room_size (room_at (length xs) h) left_fits

    -- A full ring gives way to all that comes.
    left_none : length xs ≡ 0 → room.full ≡ true → left ≡ cap
    left_none z e = omega (arith, len_full v (sym room_full ∙ e))

    left_free : room.full ≡ false → left < cap
    left_free e = omega (arith, len_not_full v (sym room_full ∙ e))

    left_over : length xs ≢ 0 → room.full ≡ true → left + length xs ≡ cap
    unfolding space
    left_over z e = omega (arith, len_full v (sym room_full ∙ e), h)

    pub over-IsValid : IsValid cap (write_segments cap xs room)
    over-IsValid =
        Put-IsValid left xs room_in room_woff room_size (room_at (length xs) h) left_fits over_put
          left_none left_free left_over

    pub over-contents :
        contents cap (write_segments cap xs room)
        ≡ drop (overflow (length xs)) (contents cap r) ++ xs
    over-contents =
        Put-contents left xs room_in room_woff room_size (room_at (length xs) h) left_fits over_put
          left_none left_free left_over
        ∙ ap (λ q. q ++ xs)
            (ap (window room.roff left) (room_rest (length xs) h).1 ∙ room_window (length xs) h)
