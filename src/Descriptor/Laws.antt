-- ===== src/Descriptor/Laws.antt =====
-- `FileDescriptor::write` of libsponge/util/file_descriptor.cc with a kernel that makes progress.
use cs144_2021_sponge.Prelude.{
  ℕ, zero, suc, ◌+◌, ◌-◌, ◌%◌, ◌^◌, ◌≤◌, ◌<◌, ◌≡◌, refl, sym, ap, ◌∙◌, true, false, ◌&&◌, not,
  Option, some, List, [], ◌∷◌, ◌++◌, length, length-append, drop, length-drop, drop-append,
  drop-nil, drop_past, ltb, ltb→lt, ◌==◌, ==_iff, if◌then◌else◌, arith, Bool-cases, inl, inr, min,
  max, add64, sub64,
}
use cs144_2021_sponge.BufferList.{
  BufferViewList, remove_views, remove_view_prefix, view_size_loop, view_size,
}
use cs144_2021_sponge.Descriptor.{
  FdWrapper, returns, register_write, write_once, shown, write_loop, write,
}

view_size_loop-shown :
    (views : List (List ℕ)) (ret : ℕ)
    → ret < 2 ^ 64
    → view_size_loop views ret ≡ (ret + length (shown views)) % 2 ^ 64
unfolding view_size_loop shown
view_size_loop-shown [] ret h = omega arith
view_size_loop-shown (view ∷ views) ret h =
    let rest = view_size_loop-shown views (add64 ret (length view)) (omega arith) in
    omega (arith, rest, length-append view (shown views))

view_size-shown :
    (v : BufferViewList) → length (shown v.views) < 2 ^ 64 → view_size v ≡ length (shown v.views)
unfolding view_size
view_size-shown v h = omega (arith, view_size_loop-shown v.views 0 (omega arith))

-- What is left after `n` bytes.
abbrev Left : ℕ → List (List ℕ) → Type 0
Left n views =
    (left : List (List ℕ)) × (remove_views n views ≡ some left)
    × (shown left ≡ drop n (shown views))

skip-Left :
    (n : ℕ) (view : List ℕ) (views : List (List ℕ))
    → (n == 0) ≡ false
    → ltb n (length view) ≡ false
    → n < 2 ^ 64
    → Left (n - length view) views
    → Left n (view ∷ views)
unfolding remove_views shown
skip-Left n view views pos ge small (left, e, s) =
    let le : length view ≤ n = ground (arith, ge) in
    let exact : sub64 n (length view) ≡ n - length view = omega arith in
    (left, rw (pos, ge, exact) e, s ∙ sym (drop_past n view (shown views) le))

remove_views-Left :
    (n : ℕ) (views : List (List ℕ)) → n < 2 ^ 64 → n ≤ length (shown views) → Left n views
unfolding remove_views shown
remove_views-Left n [] small h =
    let none_left : (n == 0) ≡ true = ground (arith, h) in ([], rw none_left refl, sym (drop-nil n))
remove_views-Left n (view ∷ views) small h = elim (Bool-cases (n == 0)) [
  | inl e ↦ (
    view ∷ views,
    rw e refl,
    sym (ap (λ (k : ℕ). drop k (view ++ shown views)) ((==_iff n 0).0 e)),
  )
  | inr pos ↦ elim (Bool-cases (ltb n (length view))) [
    | inl lt ↦ (
      drop n view ∷ views,
      rw (pos, lt) refl,
      sym (drop-append n view (shown views) (omega (arith, ltb→lt n (length view) lt))),
    )
    | inr ge ↦
        let le : length view ≤ n = ground (arith, ge) in
        skip-Left n view views pos ge small (
          remove_views-Left (n - length view) views (omega arith)
            (omega (arith, length-append view (shown views))))
  ]
]

-- A kernel that takes at least one byte of a text that is not empty, and no more than there are.
abbrev pub Progresses : (ℕ → List ℕ → Option ℕ) → Type 0
Progresses writev =
    (round : ℕ) (text : List ℕ)
    → (k : ℕ) × (writev round text ≡ some k) × (min 1 (length text) ≤ k) × (k ≤ length text)

module _ (w : FdWrapper) (v : BufferViewList) (total k : ℕ)
    (small : total + length (shown v.views) < 2 ^ 64) (least : min 1 (length (shown v.views)) ≤ k)
    (most : k ≤ length (shown v.views)) where
  size_is : view_size v ≡ length (shown v.views)
  size_is = view_size-shown v (omega arith)

  -- One round takes `k` bytes from the front.
  write_once-took :
      (left : BufferViewList) × (write_once w v total (some k)
        ≡ returns (register_write w) (left, total + k))
      × (shown left.views ≡ drop k (shown v.views))
  unfolding write_once remove_view_prefix
  write_once-took =
      let (left, e, s) = remove_views-Left k v.views (omega arith) most in
      let stuck : ((k == 0) && not (view_size v == 0)) ≡ false =
        rw size_is (ground (arith, least)) in
      let enough : ltb (view_size v) k ≡ false = rw size_is (ground (arith, most)) in
      let sum : add64 total k ≡ total + k = omega arith in
      (record { views = left }, rw (stuck, enough, e, sum) refl, s)

write_loop-write_once :
    (fuel round : ℕ) (writev : ℕ → List ℕ → Option ℕ) (w w' : FdWrapper) (v left : BufferViewList)
    (total total' k : ℕ)
    → writev round (shown v.views) ≡ some k
    → write_once w v total (some k) ≡ returns w' (left, total')
    → write_loop (suc fuel) round writev true w v total ≡ (
        if not (view_size left == 0)
        then write_loop fuel (round + 1) writev true w' left total'
        else some (returns w' total'))
unfolding write_loop
write_loop-write_once fuel round writev w w' v left total total' k answer once =
    rw (write_loop, answer, once) refl

write_loop-all :
    (fuel round : ℕ) (writev : ℕ → List ℕ → Option ℕ) (w : FdWrapper) (v : BufferViewList)
    (total : ℕ)
    → Progresses writev
    → length (shown v.views) < fuel
    → total + length (shown v.views) < 2 ^ 64
    → (w' : FdWrapper) × (rounds : ℕ) × (write_loop fuel round writev true w v total
        ≡ some (returns w' (total + length (shown v.views))))
      × (w'.at_eof ≡ w.at_eof)
      × (rounds ≤ max 1 (length (shown v.views)))
      × (w'.writes ≡ (w.writes + rounds) % 2 ^ 32)
unfolding write_loop register_write
write_loop-all zero round writev w v total p enough small = absurd (omega arith)
write_loop-all (suc fuel) round writev w v total p enough small =
    let (k, answer, least, most) = p round (shown v.views) in
    let (left, once, s) = write_once-took w v total k small least most in
    let len : length (shown left.views) ≡ length (shown v.views) - k =
      ap length s ∙ length-drop k (shown v.views) in
    let size = view_size-shown left (omega arith) in
    let step =
      write_loop-write_once fuel round writev w (register_write w) v left total (total + k) k answer
        once in
    elim (Bool-cases (view_size left == 0)) [
      | inl done ↦
          let z : view_size left ≡ 0 = (==_iff (view_size left) 0).0 done in
          let all : total + k ≡ total + length (shown v.views) =
            omega (arith, size, len, z, most) in
          (
            register_write w,
            1,
            step ∙ rw done (ap (λ (n : ℕ). some (returns (register_write w) n)) all),
            refl,
            omega arith,
            refl,
          )
      | inr more ↦
          let some_left : 0 < length (shown left.views) = ground (arith, more, size) in
          let (w', rounds, e, same, few, counted) =
            write_loop-all fuel (round + 1) writev (register_write w) left (total + k) p
              (omega (arith, len, least, enough)) (omega (arith, len, small, most)) in
          let all : total + k + length (shown left.views) ≡ total + length (shown v.views) =
            omega (arith, len, most) in
          (
            w',
            rounds + 1,
            step ∙ rw more (e ∙ ap (λ (n : ℕ). some (returns w' n)) all),
            same,
            omega (arith, few, some_left, len, least, most),
            counted ∙ omega arith,
          )
    ]

pub write_all_returns :
    (writev : ℕ → List ℕ → Option ℕ) (w : FdWrapper) (v : BufferViewList)
    → Progresses writev
    → length (shown v.views) < 2 ^ 64
    → (w' : FdWrapper) × (rounds : ℕ) × (write writev true w v
        ≡ some (returns w' (length (shown v.views))))
      × (w'.at_eof ≡ w.at_eof)
      × (rounds ≤ max 1 (length (shown v.views)))
      × (w'.writes ≡ (w.writes + rounds) % 2 ^ 32)
unfolding write
write_all_returns writev w v p small =
    let (w', rounds, e, same, few, counted) =
      write_loop-all (length (shown v.views) + 1) 0 writev w v 0 p (omega arith) (omega arith) in
    let sum : 0 + length (shown v.views) ≡ length (shown v.views) = omega arith in
    (w', rounds, e ∙ ap (λ (n : ℕ). some (returns w' n)) sum, same, few, counted)
