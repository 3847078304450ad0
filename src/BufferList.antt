-- ===== src/BufferList.antt =====
-- `BufferList` and `BufferViewList` of libsponge/util/buffer.hh and buffer.cc: a text in several parts.
pub mod Laws
pub mod Views
mod Tests
use cs144_2021_sponge.Prelude.{
  ℕ, ◌+◌, Bool, Option, none, some, List, [], ◌∷◌, ◌++◌, map, ltb, ◌==◌, if◌then◌else◌, length,
  drop, add64, sub64,
}
use cs144_2021_sponge.Buffer.{Buffer, default_buffer, str}
use cs144_2021_sponge.Buffer as Buffer

-- The one member of `BufferList`.
pub record BufferList : Type 0 where
  pub buffers : List Buffer

-- `append` pushes the other list's buffers, one by one.
unfoldable pub append_loop : List Buffer → List Buffer → List Buffer
append_loop bufs [] = bufs
append_loop bufs (buf ∷ others) = append_loop (bufs ++ (buf ∷ [])) others

unfoldable pub append : BufferList → BufferList → BufferList
append bl other = record { buffers = append_loop bl.buffers other.buffers }

-- The conversion to a `Buffer` throws where there are several: the result is then `none`.
unfoldable pub to_buffer : BufferList → Option Buffer
to_buffer bl = elim bl.buffers [
  | [] ↦ some default_buffer
  | buf ∷ bufs ↦ elim bufs [ [] ↦ some buf | b ∷ bs ↦ none ]
]

unfoldable pub concatenate_loop : List Buffer → List ℕ → List ℕ
concatenate_loop [] ret = ret
concatenate_loop (buf ∷ bufs) ret = concatenate_loop bufs (ret ++ str buf)

unfoldable pub concatenate : BufferList → List ℕ
concatenate bl = concatenate_loop bl.buffers []

unfoldable pub size_loop : List Buffer → ℕ → ℕ
size_loop [] ret = ret
size_loop (buf ∷ bufs) ret = size_loop bufs (add64 ret (Buffer.size buf))

unfoldable pub size : BufferList → ℕ
size bl = size_loop bl.buffers 0

abbrev with_front : List Buffer → Option Buffer → Option (List Buffer)
with_front bufs none = none
with_front bufs (some buf) = some (buf ∷ bufs)

-- The loop of `remove_prefix`. Each round discards the front buffer or ends the loop.
unfoldable pub remove_loop : ℕ → List Buffer → Option (List Buffer)
remove_loop n [] = if n == 0 then some [] else none
remove_loop n (buf ∷ bufs) =
    let rest = remove_loop (sub64 n (length (str buf))) bufs in
    let cut = with_front bufs (Buffer.remove_prefix buf n) in
    if n == 0 then some (buf ∷ bufs) else if ltb n (length (str buf)) then cut else rest

unfoldable pub remove_prefix : BufferList → ℕ → Option BufferList
remove_prefix bl n = elim (remove_loop n bl.buffers) [
  | none ↦ none
  | some bufs ↦ some (record { buffers = bufs })
]

-- The one member of `BufferViewList`; a view is the text that it shows.
pub record BufferViewList : Type 0 where
  pub views : List (List ℕ)

-- The constructors from a string and from a `BufferList`.
abbrev pub view_of : List ℕ → BufferViewList
view_of text = record { views = text ∷ [] }

unfoldable pub views_loop : List Buffer → List (List ℕ) → List (List ℕ)
views_loop [] views = views
views_loop (x ∷ bufs) views = views_loop bufs (views ++ (str x ∷ []))

unfoldable pub views_of : BufferList → BufferViewList
views_of bl = record { views = views_loop bl.buffers [] }

-- The loop of its `remove_prefix`, on the views.
unfoldable pub remove_views : ℕ → List (List ℕ) → Option (List (List ℕ))
remove_views n [] = if n == 0 then some [] else none
remove_views n (view ∷ views) =
    let rest = remove_views (sub64 n (length view)) views in
    if n == 0
    then some (view ∷ views)
    else if ltb n (length view)
    then some (drop n view ∷ views)
    else rest

unfoldable pub remove_view_prefix : BufferViewList → ℕ → Option BufferViewList
remove_view_prefix v n = elim (remove_views n v.views) [
  | none ↦ none
  | some views ↦ some (record { views = views })
]

unfoldable pub view_size_loop : List (List ℕ) → ℕ → ℕ
view_size_loop [] ret = ret
view_size_loop (buf ∷ views) ret = view_size_loop views (add64 ret (length buf))

unfoldable pub view_size : BufferViewList → ℕ
view_size v = view_size_loop v.views 0
