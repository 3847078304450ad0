-- ===== src/Parser/Tests.antt =====
-- Runs of the parser and of the unparser on small texts.
use cs144_2021_sponge.Prelude.{ℕ, ◌≡◌, refl, [], ◌∷◌}
use cs144_2021_sponge.Buffer.{buffer_of, str, size}
use cs144_2021_sponge.Parser.{
  ParseResult, new, u16, parse_int, check_size, set_error, put_u32, unparse_int, unparse_loop,
}

abbrev number : ℕ
number = 0x01020304

put_u32-number : put_u32 [] number ≡ 1 ∷ 2 ∷ 3 ∷ 4 ∷ []
unfolding put_u32 unparse_int unparse_loop
put_u32-number = refl

u16-short : (u16 (new (buffer_of (7 ∷ [])))).0.result ≡ ParseResult.packet_too_short
unfolding u16 parse_int check_size set_error size str new
u16-short = refl
