-- ===== src/Text.antt =====
-- Text as bytes: string constants, the `%d` of fmt and FormatUint of strconv in base 10, and the part of
-- a text behind the last occurrence of a byte.
use Prim.Native.Char.{code}
use Prim.Native.String.{String}
use gitbook_golang.Prelude.{
  ℕ, zero, suc, ◌+◌, ◌-◌, ◌*◌, ◌/◌, ◌%◌, ◌^◌, ◌≤◌, ◌<◌, ◌≡◌, refl, ◌⊎◌, inl, inr, Bool, true, false,
  ◌||◌, [], ◌∷◌, ◌++◌, arith, ltb, ◌==◌, if◌then◌else◌, Bool-cases, length, length-append,
}
use gitbook_golang.Amqp.Wire.{Bytes}

-- The bytes of an ASCII constant.
abbrev pub codes : String → Bytes
codes String.[] = []
codes (String.◌∷◌ c s) = code c ∷ codes s

-- At most `f` decimal digits.
unfoldable pub digits : ℕ → ℕ → Bytes
digits zero n = []
digits (suc f) n =
    let front = digits f (n / 10) in
    if ltb n 10 then (b'0' + n) ∷ [] else front ++ (b'0' + n % 10) ∷ []

-- Twenty digits are enough for a uint64.
unfoldable pub format_uint : ℕ → Bytes
format_uint n = digits 20 n

-- The number that digits stand for.
unfoldable pub parse_uint : ℕ → Bytes → ℕ
parse_uint acc [] = acc
parse_uint acc (c ∷ cs) = parse_uint (10 * acc + (c - b'0')) cs

unfoldable pub has_byte : ℕ → Bytes → Bool
has_byte c [] = false
has_byte c (x ∷ xs) = (x == c) || has_byte c xs

-- What is behind the last `c`, or everything if there is none.
unfoldable pub behind : ℕ → Bytes → Bytes
behind c [] = []
behind c (x ∷ xs) =
    let rest = behind c xs in if has_byte c xs then rest else if x == c then xs else x ∷ xs

pub has_byte-append :
    (c : ℕ) (xs ys : Bytes) → has_byte c (xs ++ ys) ≡ (has_byte c xs || has_byte c ys)
unfolding has_byte
has_byte-append c [] ys = refl
has_byte-append c (x ∷ xs) ys = ground (arith, has_byte-append c xs ys)

behind-none : (c : ℕ) (xs : Bytes) → has_byte c xs ≡ false → behind c xs ≡ xs
unfolding behind has_byte
behind-none c [] e = refl
behind-none c (x ∷ xs) e = ground (arith)

pub behind-append : (c : ℕ) (xs ys : Bytes) → has_byte c ys ≡ false → behind c (xs ++ c ∷ ys) ≡ ys
unfolding behind has_byte
behind-append c [] ys e = ground (arith)
behind-append c (x ∷ xs) ys e =
    let ih = behind-append c xs ys e in
    let h : has_byte c (xs ++ c ∷ ys) ≡ true = ground (arith, has_byte-append c xs (c ∷ ys)) in
    rw h ih

pub parse_uint-append :
    (acc : ℕ) (xs ys : Bytes) → parse_uint acc (xs ++ ys) ≡ parse_uint (parse_uint acc xs) ys
unfolding parse_uint
parse_uint-append acc [] ys = refl
parse_uint-append acc (x ∷ xs) ys = parse_uint-append (10 * acc + (x - b'0')) xs ys

pub length-digits : (f n : ℕ) → length (digits f n) ≤ f
unfolding digits
length-digits zero n = omega arith
length-digits (suc f) n = elim (Bool-cases (ltb n 10)) [
  | inl y ↦ rw y (omega arith)
  | inr y ↦ rw y (
      let ih = length-digits f (n / 10) in
      omega (arith, length-append (digits f (n / 10)) ((b'0' + n % 10) ∷ [])))
]

pub parse_uint-digits : (f n : ℕ) → n < 10 ^ f → parse_uint 0 (digits f n) ≡ n
unfolding digits parse_uint
parse_uint-digits zero n h = omega arith
parse_uint-digits (suc f) n h = elim (Bool-cases (ltb n 10)) [
  | inl y ↦ rw y (omega arith)
  | inr y ↦
      let ih = parse_uint-digits f (n / 10) (omega arith) in
      rw (y, parse_uint-append 0 (digits f (n / 10)) ((b'0' + n % 10) ∷ []), ih) (omega arith)
]

-- No byte below `0` or above `9` is among the digits.
pub has_byte-digits : (c f n : ℕ) → (c < b'0') ⊎ (b'9' < c) → has_byte c (digits f n) ≡ false
unfolding digits has_byte
has_byte-digits c zero n h = refl
has_byte-digits c (suc f) n h = elim (Bool-cases (ltb n 10)) [
  | inl y ↦ rw y (ground arith)
  | inr y ↦
      rw
        (
          y,
          has_byte-append c (digits f (n / 10)) ((b'0' + n % 10) ∷ []),
          has_byte-digits c f (n / 10) h,
        )
        (ground arith)
]
