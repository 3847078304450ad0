-- ===== src/Address/Names.antt =====
-- The accessors of libsponge/util/address.cc that make texts. `getnameinfo` is a parameter: it writes an
-- address in numbers into two texts.
pub mod Digits
use cs144_2021_sponge.Prelude.{
  ℕ, zero, suc, ◌+◌, ◌-◌, ◌*◌, ◌%◌, ◌^◌, Bool, true, false, ◌&&◌, Option, none, some, List, [], ◌∷◌,
  ◌++◌, ltb, leb, if◌then◌else◌,
}
use cs144_2021_sponge.Address.{Address, c_str, decimal}

pub data NameInfo : Type 0 where
  gni_error : ℕ → NameInfo
  named : List ℕ → List ℕ → NameInfo

unfoldable pub is_digit : ℕ → Bool
is_digit c = leb 48 c && leb c 57

-- The number that the digits at the front make after `value`.
unfoldable pub digits_value : ℕ → List ℕ → ℕ
digits_value value [] = value
digits_value value (c ∷ cs) =
    let rest = digits_value (10 * value + (c - 48)) cs in if is_digit c then rest else value

-- `stoi` of a text that starts with no space and no sign: without a digit, or above the range of an
-- `int`, it throws.
unfoldable pub stoi : List ℕ → Option ℕ
stoi [] = none
stoi (c ∷ cs) =
    let value = digits_value 0 (c ∷ cs) in
    if is_digit c && ltb value (2 ^ 31) then some value else none

unfoldable pub ip_port : (getnameinfo : List ℕ → ℕ → NameInfo) → Address → Option (List ℕ × ℕ)
ip_port getnameinfo a = elim (getnameinfo a.storage a.size) [
  | gni_error code ↦ none
  | named ip port ↦ elim (stoi (c_str port)) [ none ↦ none | some n ↦ some (c_str ip, n % 2 ^ 16) ]
]

unfoldable pub to_string : (getnameinfo : List ℕ → ℕ → NameInfo) → Address → Option (List ℕ)
to_string getnameinfo a = elim (ip_port getnameinfo a) [
  | none ↦ none
  | some p ↦ some (p.0 ++ (58 ∷ []) ++ decimal 5 p.1)
]
