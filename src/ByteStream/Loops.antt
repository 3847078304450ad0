-- ===== src/ByteStream/Loops.antt =====
-- The byte-by-byte loops of libsponge/byte_stream.cc as operations on whole lists.
use cs144_2021_sponge.Prelude.{
  ℕ, zero, suc, ◌≡◌, refl, sym, ap, ◌∙◌, List, [], ◌∷◌, ◌++◌, append-nil, append_assoc, take, drop,
}
use cs144_2021_sponge.ByteStream.{write_loop, peek_loop, pop_loop, read_loop}

pub write_loop-append : (n : ℕ) (xs buf : List ℕ) → write_loop n xs buf ≡ buf ++ take n xs
unfolding write_loop
write_loop-append zero xs buf = sym (append-nil buf)
write_loop-append (suc n) [] buf = sym (append-nil buf)
write_loop-append (suc n) (x ∷ xs) buf =
    write_loop-append n xs (buf ++ (x ∷ [])) ∙ append_assoc buf (x ∷ []) (take n xs)

pub peek_loop-append : (n : ℕ) (buf out : List ℕ) → peek_loop n buf out ≡ out ++ take n buf
unfolding peek_loop
peek_loop-append zero buf out = sym (append-nil out)
peek_loop-append (suc n) [] out = sym (append-nil out)
peek_loop-append (suc n) (x ∷ buf) out =
    peek_loop-append n buf (out ++ (x ∷ [])) ∙ append_assoc out (x ∷ []) (take n buf)

pub pop_loop-drop : (n : ℕ) (buf : List ℕ) → pop_loop n buf ≡ drop n buf
unfolding pop_loop
pop_loop-drop zero buf = refl
pop_loop-drop (suc n) [] = refl
pop_loop-drop (suc n) (x ∷ buf) = pop_loop-drop n buf

pub read_loop-split :
    (n : ℕ) (buf out : List ℕ) → read_loop n buf out ≡ (drop n buf, out ++ take n buf)
unfolding read_loop
read_loop-split zero buf out = ap (λ o. (buf, o)) (sym (append-nil out))
read_loop-split (suc n) [] out = ap (λ o. ([], o)) (sym (append-nil out))
read_loop-split (suc n) (x ∷ buf) out =
    read_loop-split n buf (out ++ (x ∷ []))
    ∙ ap (λ o. (drop n buf, o)) (append_assoc out (x ∷ []) (take n buf))
