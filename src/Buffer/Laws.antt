-- ===== src/Buffer/Laws.antt =====
-- `Buffer` of libsponge/util/buffer.cc against the text that it shows.
use cs144_2021_sponge.Prelude.{
  ℕ, ◌+◌, ◌^◌, ◌≤◌, ◌<◌, ◌≡◌, refl, sym, ap, ◌∙◌, Option, none, some, List, [], ◌∷◌, length, drop,
  arith, ltb, length-drop, drop-drop, add64, inl, inr, ◌⊎◌, Bool-cases, ltb→lt, ◌==◌, ==_iff,
  drop-nil,
}
use cs144_2021_sponge.Buffer.{Buffer, str, size, reset_if_done, advance, remove_prefix, buffer_of}

-- The offset lies inside the text, which is shorter than 2 ^ 64.
abbrev Bounded : Option (List ℕ) → ℕ → Type 0
Bounded none offset = Unit
Bounded (some text) offset = (offset ≤ length text) × (length text < 2 ^ 64)

unfoldable pub IsSound : Buffer → Type 0
IsSound b = Bounded b.storage b.starting_offset

pub buffer_of-IsSound : (text : List ℕ) → length text < 2 ^ 64 → IsSound (buffer_of text)
unfolding IsSound
buffer_of-IsSound text small = (omega arith, small)

drop_full : (text : List ℕ) → drop (length text) text ≡ []
drop_full [] = refl
drop_full (x ∷ xs) = drop_full xs

abbrev showing : Option (List ℕ) → ℕ → Buffer
showing storage offset = record { storage = storage; starting_offset = offset }

reset_same :
    (text : List ℕ) (offset : ℕ)
    → str (reset_if_done (showing (some text) offset)) ≡ drop offset text
unfolding str reset_if_done
reset_same text offset = elim (Bool-cases (offset == length text)) [
  | inl e ↦
      rw e (sym (ap (λ (k : ℕ). drop k text) ((==_iff offset (length text)).0 e) ∙ drop_full text))
  | inr e ↦ rw e
]

showing_advance :
    (storage : Option (List ℕ)) (offset n : ℕ)
    → Bounded storage offset
    → n ≤ size (showing storage offset)
    → str (advance (showing storage offset) n) ≡ drop n (str (showing storage offset))
unfolding size advance str
showing_advance none offset n v h = sym (drop-nil n)
showing_advance (some text) offset n v h =
    let e : add64 offset n ≡ offset + n = omega (arith, v, length-drop offset text) in
    rw e (reset_same text (offset + n) ∙ sym (drop-drop offset n text))

reset-Bounded :
    (text : List ℕ) (offset : ℕ)
    → Bounded (some text) offset
    → IsSound (reset_if_done (showing (some text) offset))
unfolding IsSound reset_if_done
reset-Bounded text offset v = ground (arith, v)

advance-Bounded :
    (storage : Option (List ℕ)) (offset n : ℕ)
    → Bounded storage offset
    → n ≤ size (showing storage offset)
    → IsSound (advance (showing storage offset) n)
unfolding IsSound size advance str
advance-Bounded none offset n v h = tt
advance-Bounded (some text) offset n v h =
    let e : add64 offset n ≡ offset + n = omega (arith, v, length-drop offset text) in
    rw e (reset-Bounded text (offset + n) (omega (arith, v, h, length-drop offset text), v.1))

pub advance-drop :
    (b : Buffer) (n : ℕ)
    → IsSound b
    → n ≤ size b
    → (str (advance b n) ≡ drop n (str b)) × IsSound (advance b n)
unfolding IsSound
advance-drop b n v h = (
  showing_advance b.storage b.starting_offset n v h,
  advance-Bounded b.storage b.starting_offset n v h,
)

-- A buffer whose offset lies inside its text, which is shorter than 2 ^ 64: `remove_prefix` of no more
-- bytes than are shown leaves the rest shown and the offset inside, also where it gives up the
-- storage; of more bytes it throws.
pub remove_prefix-drop :
    (b : Buffer) (n : ℕ)
    → IsSound b
    → ((n ≤ size b)
        × (b' : Buffer) × (remove_prefix b n ≡ some b')
        × (str b' ≡ drop n (str b))
        × IsSound b')
      ⊎ ((size b < n) × (remove_prefix b n ≡ none))
unfolding remove_prefix
remove_prefix-drop b n v = elim (Bool-cases (ltb (size b) n)) [
  | inl out ↦ inr (ltb→lt (size b) n out, rw out refl)
  | inr in_ ↦
      let h : n ≤ size b = ground (arith, in_) in
      let (shown, sound) = advance-drop b n v h in inl (h, advance b n, rw in_ refl, shown, sound)
]
