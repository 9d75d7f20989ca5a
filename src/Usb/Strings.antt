-- ===== src/Usb/Strings.antt =====
-- LIB/Toastbox/USB.h: the string descriptors, made from text and read back as text.
use virtual_usb.Base.{
  ℕ, zero, suc, ◌+◌, ◌-◌, ◌*◌, ◌/◌, ◌%◌, ◌^◌, ◌≤◌, ◌<◌, ◌++◌, ◌≡◌, refl, ap, ◌∙◌, Bool, List, [],
  ◌∷◌, Option, none, some, All, arith, if◌then◌else◌, ◌==◌, leb, length, drop, le→leb,
}
use virtual_usb.Endian.{lfh_u16, hfl_u16, store16, load16, le_bytes16}
use virtual_usb.Endian.Wire.{store_wire, hfl_u16-load16}
use virtual_usb.Usb.DescriptorType
use virtual_usb.Usb.{StringDescriptor}

module _ (little : Bool) where
  -- The array `str` or `langs` in memory, each element converted by LFH_U16.
  abbrev pub words_memory : List ℕ → List ℕ
  words_memory [] = []
  words_memory (w ∷ ws) = store16 little (lfh_u16 little w) ++ words_memory ws

  -- `StringDescriptorN` and `SupportedLanguagesDescriptorN`: `bLength` is the size of the object, as
  -- a byte. Text is the list of its characters.
  abbrev pub string_descriptor : List ℕ → StringDescriptor
  string_descriptor ws = record {
    b_length = (2 + 2 * length ws) % 256;
    b_descriptor_type = DescriptorType.string;
    following = words_memory ws;
  }

  -- The loop of `asciiString` over the memory of `str`: a character is the low byte of a word. No
  -- result: it reads behind the object.
  unfoldable pub ascii_loop : ℕ → List ℕ → Option (List ℕ)
  ascii_loop zero m = some []
  ascii_loop (suc n) m =
      let rest = ascii_loop n (drop 2 m) in
      if leb 2 (length m)
      then elim rest [ none ↦ none | some r ↦ some (hfl_u16 little (load16 little m) % 256 ∷ r) ]
      else none

  -- `(bLength-2)/2` is computed on `int`; -1 becomes the largest `size_t`.
  abbrev pub ascii_len : ℕ → ℕ
  ascii_len b_length = if b_length == 0 then 2 ^ 64 - 1 else (b_length - 2) / 2

  unfoldable pub ascii_string : StringDescriptor → Option (List ℕ)
  ascii_string d = ascii_loop (ascii_len d.b_length) d.following

  ascii_loop-words_memory :
      (ws : List ℕ) → All (λ c. c < 128) ws → ascii_loop (length ws) (words_memory ws) ≡ some ws
  unfolding ascii_loop
  ascii_loop-words_memory [] h = refl
  ascii_loop-words_memory (w ∷ ws) h =
      ap (λ l. ascii_loop (suc (length ws)) (l ++ words_memory ws)) (store_wire little 0 w).2
      ∙ rw
          (
            le→leb 2 (length (le_bytes16 w ++ words_memory ws)) (omega arith),
            ascii_loop-words_memory ws h.1,
          )
          (ap (λ c. some (c ∷ ws))
            (ap (λ c. c % 256) (hfl_u16-load16 little w (words_memory ws) (omega (arith, h.0)))
              ∙ (let e : w % 256 ≡ w = omega (arith, h.0) in e)))

  -- On a host of either byte order, asciiString of a string descriptor made from at most 126 ASCII
  -- characters reads only its own memory and gives the text.
  pub ascii_string-string_descriptor :
      (ws : List ℕ)
      → length ws ≤ 126
      → All (λ c. c < 128) ws
      → ascii_string (string_descriptor ws) ≡ some ws
  unfolding ascii_string
  ascii_string-string_descriptor ws h a =
      let n : ascii_len ((2 + 2 * length ws) % 256) ≡ length ws = ground arith in
      ap (λ k. ascii_loop k (words_memory ws)) n ∙ ascii_loop-words_memory ws a
