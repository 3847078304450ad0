-- ===== src/BufferList/Laws.antt =====
-- `BufferList` and `BufferViewList` of libsponge/util/buffer.cc against the text that they show.
use cs144_2021_sponge.Prelude.{
  ℕ, map, ◌+◌, ◌-◌, ◌%◌, ◌^◌, ◌≤◌, ◌<◌, ◌≡◌, refl, sym, ap, subst, ◌∙◌, drop_past, true, false,
  Option, none, some, List, [], ◌∷◌, ◌++◌, append-nil, append_assoc, length, drop, arith, ltb,
  ltb→lt, length-append, drop-append, add64, sub64, inl, inr, ◌⊎◌, Bool-cases, ◌==◌, ==_iff,
}
use cs144_2021_sponge.Buffer.{Buffer, str}
use cs144_2021_sponge.Buffer as Buffer
use cs144_2021_sponge.Buffer.Laws.{IsSound}
use cs144_2021_sponge.Buffer.Laws as Part
use cs144_2021_sponge.BufferList.{
  BufferList, append_loop, append, concatenate_loop, concatenate, size_loop, size, remove_loop,
  remove_prefix, with_front, views_loop,
}

-- The text that the parts show together.
unfoldable pub text : List Buffer → List ℕ
text [] = []
text (buf ∷ bufs) = str buf ++ text bufs

unfoldable pub AllSound : List Buffer → Type 0
AllSound [] = Unit
AllSound (buf ∷ bufs) = IsSound buf × AllSound bufs

concatenate_loop-text :
    (bufs : List Buffer) (ret : List ℕ) → concatenate_loop bufs ret ≡ ret ++ text bufs
unfolding concatenate_loop text
concatenate_loop-text [] ret = sym (append-nil ret)
concatenate_loop-text (buf ∷ bufs) ret =
    concatenate_loop-text bufs (ret ++ str buf) ∙ append_assoc ret (str buf) (text bufs)

pub concatenate-text : (bl : BufferList) → concatenate bl ≡ text bl.buffers
unfolding concatenate
concatenate-text bl = concatenate_loop-text bl.buffers []

size_loop-text :
    (bufs : List Buffer) (ret : ℕ)
    → ret < 2 ^ 64
    → size_loop bufs ret ≡ (ret + length (text bufs)) % 2 ^ 64
unfolding size_loop text Buffer.size
size_loop-text [] ret h = omega arith
size_loop-text (buf ∷ bufs) ret h =
    let rest = size_loop-text bufs (add64 ret (length (str buf))) (omega arith) in
    omega (arith, rest, length-append (str buf) (text bufs))

append_loop-append : (others bufs : List Buffer) → append_loop bufs others ≡ bufs ++ others
unfolding append_loop
append_loop-append [] bufs = sym (append-nil bufs)
append_loop-append (buf ∷ others) bufs =
    append_loop-append others (bufs ++ (buf ∷ [])) ∙ append_assoc bufs (buf ∷ []) others

text-append : (bufs others : List Buffer) → text (bufs ++ others) ≡ text bufs ++ text others
unfolding text
text-append [] others = refl
text-append (buf ∷ bufs) others =
    ap (λ t. str buf ++ t) (text-append bufs others)
    ∙ sym (append_assoc (str buf) (text bufs) (text others))

-- `append` puts the other list's text behind this one's, and `size` counts the bytes of the whole modulo
-- 2 ^ 64.
pub concatenate-append :
    (a b : BufferList)
    → (concatenate (append a b) ≡ concatenate a ++ concatenate b)
      × (size (append a b) ≡ (length (concatenate a) + length (concatenate b)) % 2 ^ 64)
unfolding append size
concatenate-append a b =
    let whole : text (append a b).buffers ≡ text a.buffers ++ text b.buffers =
      ap text (append_loop-append b.buffers a.buffers) ∙ text-append a.buffers b.buffers in
    rw (concatenate-text a, concatenate-text b, concatenate-text (append a b))
      (
        whole,
        size_loop-text (append a b).buffers 0 (omega arith)
            ∙ ap (λ (k : ℕ). k % 2 ^ 64)
                (omega (arith, ap length whole, length-append (text a.buffers) (text b.buffers))),
      )

-- What `remove_prefix` of `n` bytes must answer.
abbrev Removed : ℕ → List Buffer → Option (List Buffer) → Type 0
Removed n bufs none = length (text bufs) < n
Removed n bufs (some rest) =
    (n ≤ length (text bufs)) × (text rest ≡ drop n (text bufs)) × AllSound rest

-- The round that cuts the front buffer, and the round that discards it.
front-Removed :
    (n : ℕ) (buf : Buffer) (bufs : List Buffer)
    → AllSound (buf ∷ bufs)
    → n < length (str buf)
    → Removed n (buf ∷ bufs) (with_front bufs (Buffer.remove_prefix buf n))
unfolding text AllSound Buffer.size
front-Removed n buf bufs v h = elim (Part.remove_prefix-drop buf n v.0) [
  | inl (le, b', e, shown, sound) ↦ rw e (
    omega (arith, length-append (str buf) (text bufs)),
    ap (λ t. t ++ text bufs) shown ∙ sym (drop-append n (str buf) (text bufs) (omega arith)),
    (sound, v.1),
  )
  | inr (lt, e) ↦ absurd (omega arith)
]

skip-Removed :
    (n : ℕ) (buf : Buffer) (bufs : List Buffer) (rest : Option (List Buffer))
    → length (str buf) ≤ n
    → Removed (n - length (str buf)) bufs rest
    → Removed n (buf ∷ bufs) rest
unfolding text
skip-Removed n buf bufs none h r = omega (arith, r, length-append (str buf) (text bufs))
skip-Removed n buf bufs (some rest) h (le, e, sound) = (
  omega (arith, length-append (str buf) (text bufs)),
  e ∙ sym (drop_past n (str buf) (text bufs) h),
  sound,
)

keep-Removed :
    (n : ℕ) (bufs : List Buffer) → AllSound bufs → (n == 0) ≡ true → Removed n bufs (some bufs)
keep-Removed n bufs v e =
    subst (λ (k : ℕ). Removed k bufs (some bufs)) (sym ((==_iff n 0).0 e)) (omega arith, refl, v)

nothing_left : (n : ℕ) → (n == 0) ≡ false → length (text []) < n
unfolding text
nothing_left n e = ground arith

remove_loop-Removed :
    (n : ℕ) (bufs : List Buffer)
    → AllSound bufs
    → n < 2 ^ 64
    → length (text bufs) < 2 ^ 64
    → Removed n bufs (remove_loop n bufs)
unfolding remove_loop AllSound text
remove_loop-Removed n [] v h small = elim (Bool-cases (n == 0)) [
  | inl e ↦ rw e (keep-Removed n [] v e)
  | inr e ↦ rw e (nothing_left n e)
]
remove_loop-Removed n (buf ∷ bufs) v h small = elim (Bool-cases (n == 0)) [
  | inl e ↦ rw e (keep-Removed n (buf ∷ bufs) v e)
  | inr pos ↦ elim (Bool-cases (ltb n (length (str buf)))) [
    | inl lt ↦ rw (pos, lt) (front-Removed n buf bufs v (ltb→lt n (length (str buf)) lt))
    | inr ge ↦
        let le : length (str buf) ≤ n = ground (arith, ge) in
        let exact : sub64 n (length (str buf)) ≡ n - length (str buf) = omega arith in
        rw (pos, ge, exact)
          (skip-Removed n buf bufs _ le (
            remove_loop-Removed (n - length (str buf)) bufs v.1 (omega arith)
              (omega (arith, length-append (str buf) (text bufs)))))
  ]
]

-- What `remove_prefix` of `n` bytes promises: the rest of the text where there are `n`, else an
-- exception.
abbrev pub Discards : BufferList → ℕ → Type 0
Discards bl n =
    ((n ≤ length (concatenate bl))
      × (bl' : BufferList) × (remove_prefix bl n ≡ some bl')
      × (concatenate bl' ≡ drop n (concatenate bl))
      × AllSound bl'.buffers)
    ⊎ ((length (concatenate bl) < n) × (remove_prefix bl n ≡ none))

Discards-Removed :
    (bl : BufferList) (n : ℕ) (o : Option (List Buffer))
    → remove_loop n bl.buffers ≡ o
    → Removed n bl.buffers o
    → Discards bl n
unfolding remove_prefix
Discards-Removed bl n none e r = inr (rw (concatenate-text bl) r, rw (remove_prefix, e) refl)
Discards-Removed bl n (some rest) e (le, shown, sound) = inl (
  rw (concatenate-text bl) le,
  record { buffers = rest },
  rw (remove_prefix, e) refl,
  rw (concatenate-text bl, concatenate-text (record { buffers = rest })) shown,
  sound,
)

-- A list of buffers whose offsets lie inside their texts, with fewer than 2 ^ 64 bytes in all: discarding
-- no more bytes than it shows leaves the rest of the text shown, whichever buffers that discards or cuts,
-- and the offsets inside; discarding more throws.
pub remove_prefix-Discards :
    (bl : BufferList) (n : ℕ)
    → AllSound bl.buffers
    → length (concatenate bl) < 2 ^ 64
    → n < 2 ^ 64
    → Discards bl n
remove_prefix-Discards bl n v small h = Discards-Removed bl n (remove_loop n bl.buffers) refl (
    remove_loop-Removed n bl.buffers v h
      (subst (λ t. length t < 2 ^ 64) (concatenate-text bl) small))

views_loop-map :
    (bufs : List Buffer) (views : List (List ℕ)) → views_loop bufs views ≡ views ++ map str bufs
unfolding views_loop
views_loop-map [] views = sym (append-nil views)
views_loop-map (x ∷ bufs) views =
    views_loop-map bufs (views ++ (str x ∷ [])) ∙ append_assoc views (str x ∷ []) (map str bufs)
