-- ===== src/BufferList/Views.antt =====
-- `BufferViewList` of libsponge/util/buffer.cc against the `BufferList` that it was made from.
use cs144_2021_sponge.Prelude.{
  ℕ, ◌<◌, ◌≡◌, refl, sym, ap, ◌∙◌, Option, none, some, List, [], ◌∷◌, map, ◌++◌, append-nil,
  append_assoc, length, drop, arith, ltb, ltb→lt, add64, sub64, inl, inr, Bool-cases, ◌==◌,
}
use mathlib.Core.Option as Option
use cs144_2021_sponge.Buffer.{Buffer, str}
use cs144_2021_sponge.Buffer as Buffer
use cs144_2021_sponge.Buffer.Laws as Part
use cs144_2021_sponge.BufferList.{
  BufferList, size_loop, size, remove_loop, remove_prefix, with_front, views_loop, views_of,
  remove_views, remove_view_prefix, view_size_loop, view_size,
}
use cs144_2021_sponge.BufferList.Laws.{AllSound}

views_loop-map :
    (bufs : List Buffer) (views : List (List ℕ)) → views_loop bufs views ≡ views ++ map str bufs
unfolding views_loop
views_loop-map [] views = sym (append-nil views)
views_loop-map (x ∷ bufs) views =
    views_loop-map bufs (views ++ (str x ∷ [])) ∙ append_assoc views (str x ∷ []) (map str bufs)

views_of-map :
    (bufs : List Buffer) → views_of (record { buffers = bufs }) ≡ record { views = map str bufs }
unfolding views_of
views_of-map bufs = ap (λ vs. record { views = vs }) (views_loop-map bufs [])

cut_front :
    (n : ℕ) (buf : Buffer) (bufs : List Buffer)
    → AllSound (buf ∷ bufs)
    → n < length (str buf)
    → Option.map (map str) (with_front bufs (Buffer.remove_prefix buf n))
      ≡ some (drop n (str buf) ∷ map str bufs)
unfolding AllSound Buffer.size
cut_front n buf bufs v h = elim (Part.remove_prefix-drop buf n v.0) [
  | inl (le, b', e, shown, sound) ↦ rw e (ap (λ t. some (t ∷ map str bufs)) shown)
  | inr (lt, e) ↦ absurd (omega arith)
]

remove_views-map :
    (n : ℕ) (bufs : List Buffer)
    → AllSound bufs
    → remove_views n (map str bufs) ≡ Option.map (map str) (remove_loop n bufs)
unfolding remove_views remove_loop AllSound
remove_views-map n [] v = ground arith
remove_views-map n (buf ∷ bufs) v = elim (Bool-cases (n == 0)) [
  | inl e ↦ rw e refl
  | inr pos ↦ elim (Bool-cases (ltb n (length (str buf)))) [
    | inl lt ↦ rw (pos, lt) (sym (cut_front n buf bufs v (ltb→lt n (length (str buf)) lt)))
    | inr ge ↦ rw (pos, ge) (remove_views-map (sub64 n (length (str buf))) bufs v.1)
  ]
]

view_size_loop-map :
    (bufs : List Buffer) (ret : ℕ) → view_size_loop (map str bufs) ret ≡ size_loop bufs ret
unfolding view_size_loop size_loop Buffer.size
view_size_loop-map [] ret = refl
view_size_loop-map (buf ∷ bufs) ret = view_size_loop-map bufs (add64 ret (length (str buf)))

views_of-Option :
    (o : Option (List Buffer))
    → Option.map (λ views. record { views = views }) (Option.map (map str) o)
      ≡ Option.map views_of (Option.map (λ bufs. record { buffers = bufs }) o)
views_of-Option none = refl
views_of-Option (some bufs) = ap some (sym (views_of-map bufs))

-- Where the buffers' offsets lie inside their texts, the views of a list behave as the list: discarding a
-- prefix of the views gives the views of what the list has left, or throws where it does, and the sizes
-- agree.
pub views_agree :
    (bl : BufferList) (n : ℕ)
    → AllSound bl.buffers
    → (remove_view_prefix (views_of bl) n ≡ Option.map views_of (remove_prefix bl n))
      × (view_size (views_of bl) ≡ size bl)
unfolding remove_view_prefix remove_prefix view_size size
views_agree bl n v = rw (views_of-map bl.buffers) (
  ap (λ o. Option.map (λ views. record { views = views }) o) (remove_views-map n bl.buffers v)
      ∙ views_of-Option (remove_loop n bl.buffers),
  view_size_loop-map bl.buffers 0,
)
