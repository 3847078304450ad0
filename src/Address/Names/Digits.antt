-- ===== src/Address/Names/Digits.antt =====
-- Ports in digits, as libsponge/util/address.cc writes and reads them.
use cs144_2021_sponge.Prelude.{
  ℕ, zero, suc, ◌+◌, ◌-◌, ◌*◌, ◌/◌, ◌%◌, ◌^◌, ◌≤◌, ◌<◌, ◌≡◌, refl, ap, ◌∙◌, true, false, some, List,
  [], ◌∷◌, ◌++◌, ltb, arith, length, take, replicate, ◌==◌, length-append, Bool-cases, inl, inr,
}
use native.Mathlib.Nat.{pow-suc}
use cs144_2021_sponge.Address.{
  Address, c_str, decimal, Hints, make_hints, ai_numeric, af_inet, Resolved, found, storage_size,
  address, resolve, from_ip,
}
use cs144_2021_sponge.Address.Names.{
  NameInfo, named, is_digit, digits_value, stoi, ip_port, to_string,
}

-- A text of digits.
unfoldable Digits : List ℕ → Type 0
Digits [] = Unit
Digits (c ∷ cs) = (48 ≤ c) × (c ≤ 57) × Digits cs

is_digit_at : (c : ℕ) → 48 ≤ c → c ≤ 57 → is_digit c ≡ true
unfolding is_digit
is_digit_at c low high = ground (arith, low, high)

Digits-append : (xs : List ℕ) (c : ℕ) → Digits xs → 48 ≤ c → c ≤ 57 → Digits (xs ++ (c ∷ []))
unfolding Digits
Digits-append [] c d low high = (low, high, tt)
Digits-append (x ∷ xs) c (l, h, d) low high = (l, h, Digits-append xs c d low high)

digits_value-append :
    (xs : List ℕ) (value c : ℕ)
    → Digits xs
    → 48 ≤ c
    → c ≤ 57
    → digits_value value (xs ++ (c ∷ [])) ≡ 10 * digits_value value xs + (c - 48)
unfolding Digits digits_value
digits_value-append [] value c d low high = rw (is_digit_at c low high) refl
digits_value-append (x ∷ xs) value c (l, h, d) low high =
    rw (is_digit_at x l h) (digits_value-append xs (10 * value + (x - 48)) c d low high)

decimal-Digits : (fuel n : ℕ) → Digits (decimal fuel n)
unfolding decimal Digits
decimal-Digits zero n = tt
decimal-Digits (suc fuel) n = elim (Bool-cases (ltb n 10)) [
  | inl small ↦ rw small (omega arith, ground (arith, small), tt)
  | inr large ↦ rw large (
      Digits-append (decimal fuel (n / 10)) (48 + n % 10) (decimal-Digits fuel (n / 10))
        (omega arith) (omega arith))
]

value-decimal : (fuel n : ℕ) → n < 10 ^ fuel → digits_value 0 (decimal fuel n) ≡ n
unfolding decimal digits_value
value-decimal zero n small = omega (arith, small)
value-decimal (suc fuel) n small = elim (Bool-cases (ltb n 10)) [
  | inl one ↦ rw (one, is_digit_at (48 + n) (omega arith) (ground (arith, one))) (omega arith)
  | inr more ↦
      let inner : digits_value 0 (decimal fuel (n / 10)) ≡ n / 10 =
        value-decimal fuel (n / 10) (omega (arith, small, pow-suc 10 fuel)) in
      rw more (
        digits_value-append (decimal fuel (n / 10)) 0 (48 + n % 10) (decimal-Digits fuel (n / 10))
          (omega arith) (omega arith)
        ∙ omega (arith, inner))
]

c_str-Digits : (xs : List ℕ) → Digits xs → c_str xs ≡ xs
unfolding c_str Digits
c_str-Digits [] d = refl
c_str-Digits (x ∷ xs) (low, high, d) =
    let not_null : (x == 0) ≡ false = ground (arith, low) in
    rw not_null (ap (λ cs. x ∷ cs) (c_str-Digits xs d))

stoi-Digits :
    (xs : List ℕ)
    → Digits xs
    → 0 < length xs
    → digits_value 0 xs < 2 ^ 31
    → stoi xs ≡ some (digits_value 0 xs)
unfolding stoi Digits
stoi-Digits [] d full small = absurd (omega (arith, full))
stoi-Digits (x ∷ xs) (low, high, d) full small =
    let fits : ltb (digits_value 0 (x ∷ xs)) (2 ^ 31) ≡ true = ground (arith, small) in
    rw (is_digit_at x low high, fits) refl

decimal-full : (fuel n : ℕ) → 0 < length (decimal (suc fuel) n)
unfolding decimal
decimal-full fuel n = elim (Bool-cases (ltb n 10)) [
  | inl one ↦ rw one (omega arith)
  | inr more ↦ rw more (omega (arith, length-append (decimal fuel (n / 10)) ((48 + n % 10) ∷ [])))
]

stoi-decimal : (port : ℕ) → port < 2 ^ 16 → stoi (c_str (decimal 5 port)) ≡ some port
stoi-decimal port small =
    let value : digits_value 0 (decimal 5 port) ≡ port =
      value-decimal 5 port (omega (arith, small)) in
    let digits : Digits (decimal 5 port) = decimal-Digits 5 port in
    ap stoi (c_str-Digits (decimal 5 port) digits)
    ∙ stoi-Digits (decimal 5 port) digits (decimal-full 4 port) (omega (arith, value, small))
    ∙ ap some value

-- The resolver takes this address in digits with this port, without looking anything up, and the address that it
-- finds is written back with the same digits.
pub record Numeric (getaddrinfo : List ℕ → List ℕ → Hints → Resolved)
    (getnameinfo : List ℕ → ℕ → NameInfo) (ip : List ℕ) (port : ℕ) : Type 0 where
  pub text : c_str ip ≡ ip
  pub bytes : List ℕ
  pub size : ℕ
  pub fits : size ≤ storage_size
  pub known : getaddrinfo ip (decimal 5 port) (make_hints ai_numeric af_inet) ≡ found bytes size
  pub written :
      getnameinfo (take size bytes ++ replicate (storage_size - size) 0) size
      ≡ named ip (decimal 5 port)

-- An address that is made from an address in digits and a 16-bit port tells the same two again and is printed
-- as the digits, a colon and the port, where the resolver takes the digits and writes them back.
pub from_ip-to_string :
    (getaddrinfo : List ℕ → List ℕ → Hints → Resolved) (getnameinfo : List ℕ → ℕ → NameInfo)
    (ip : List ℕ) (port : ℕ)
    → Numeric getaddrinfo getnameinfo ip port
    → port < 2 ^ 16
    → (a : Address) × (from_ip getaddrinfo ip port ≡ some a)
      × (ip_port getnameinfo a ≡ some (ip, port))
      × (to_string getnameinfo a ≡ some (ip ++ (58 ∷ []) ++ decimal 5 port))
unfolding from_ip resolve address ip_port to_string
from_ip-to_string getaddrinfo getnameinfo ip port k small =
    let over : ltb storage_size k.size ≡ false = ground (arith, k.fits) in
    let inside : port % 2 ^ 16 ≡ port = omega (arith, small) in
    let service : c_str (decimal 5 port) ≡ decimal 5 port =
      c_str-Digits (decimal 5 port) (decimal-Digits 5 port) in
    (
      record {
        size = k.size;
        storage = take k.size k.bytes ++ replicate (storage_size - k.size) 0;
      },
      rw (k.text, service, k.known, over, from_ip, resolve, address) refl,
      rw (k.written, stoi-decimal port small, k.text, inside, ip_port) refl,
      rw (k.written, stoi-decimal port small, k.text, inside, to_string, ip_port) refl,
    )
