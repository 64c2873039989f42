-- ===== src/Gorm.antt =====
-- `genEmployee` of database/gorm/main.go, with the model of database/gorm/model/model.go.
use gitbook_golang.Prelude.{
  ℕ, zero, suc, ◌+◌, ◌-◌, ◌*◌, ◌%◌, ◌^◌, ◌<◌, ◌≡◌, refl, sym, ap, ◌∙◌, ◌≢◌, inr, false, [], ◌∷◌,
  ◌++◌, arith, ◌==◌, length,
}
use gitbook_golang.Amqp.Wire.{Bytes}
use gitbook_golang.Text.{
  codes, digits, format_uint, parse_uint, has_byte, behind, has_byte-append, behind-append,
  parse_uint-append, parse_uint-digits, has_byte-digits,
}

-- The fields of `gorm.Model` are set by the library and left out.
pub record Employee : Type 0 where
  pub name : Bytes
  pub email : Bytes
  pub number : ℕ

unfoldable pub zeros : ℕ → Bytes
zeros zero = []
zeros (suc n) = b'0' ∷ zeros n

-- `%03d`
unfoldable pub padded : ℕ → Bytes
padded n = let ds = format_uint n in zeros (3 - length ds) ++ ds

-- `lastNumber + 1` in 64 bits. The text of the email has no verb for its argument, which fmt then puts
-- behind the text, with its type.
unfoldable pub gen_employee : ℕ → Employee
gen_employee last_number = record {
  name = codes "emp" ++ padded ((last_number + 1) % 2 ^ 64);
  email = codes "emp03d@example.org%!(EXTRA uint=" ++ (format_uint last_number ++ codes ")");
  number = (last_number + 1) % 2 ^ 64;
}

has_byte-zeros : (c k : ℕ) → (c == b'0') ≡ false → has_byte c (zeros k) ≡ false
unfolding has_byte zeros
has_byte-zeros c zero h = refl
has_byte-zeros c (suc k) h = ground (arith, has_byte-zeros c k h)

parse_uint-zeros : (k : ℕ) (ds : Bytes) → parse_uint 0 (zeros k ++ ds) ≡ parse_uint 0 ds
unfolding parse_uint zeros
parse_uint-zeros zero ds = refl
parse_uint-zeros (suc k) ds = parse_uint-zeros k ds

-- The number in a name.
name_lem : (last : ℕ) → parse_uint 0 (behind b'p' (gen_employee last).name) ≡ (last + 1) % 2 ^ 64
unfolding gen_employee padded format_uint
name_lem last =
    let n = (last + 1) % 2 ^ 64 in
    let ds = digits 20 n in
    let k = 3 - length ds in
    let clean : has_byte b'p' (zeros k ++ ds) ≡ false =
      rw
        (
          has_byte-append b'p' (zeros k) ds,
          has_byte-zeros b'p' k refl,
          has_byte-digits b'p' 20 n (inr (omega arith)),
        )
        refl in
    rw (behind-append b'p' (codes "em") (zeros k ++ ds) clean, parse_uint-zeros k ds)
      (parse_uint-digits 20 n (omega arith))

-- Ten times the number in an email: the parenthesis counts as a zero.
email_lem :
    (last : ℕ) → last < 2 ^ 64 → parse_uint 0 (behind b'=' (gen_employee last).email) ≡ 10 * last
unfolding gen_employee format_uint has_byte parse_uint
email_lem last small =
    let ds = digits 20 last in
    let clean : has_byte b'=' (ds ++ codes ")") ≡ false =
      rw (has_byte-append b'=' ds (codes ")"), has_byte-digits b'=' 20 last (inr (omega arith)))
        refl in
    rw
      (
        behind-append b'=' (codes "emp03d@example.org%!(EXTRA uint") (ds ++ codes ")") clean,
        parse_uint-append 0 ds (codes ")"),
        parse_uint-digits 20 last (omega arith),
      )
      (omega arith)

-- Employees that are generated for two different last numbers below 2^64 differ in their names, in their
-- emails and in their numbers.
pub employees_differ :
    (a b : ℕ)
    → a < 2 ^ 64
    → b < 2 ^ 64
    → a ≢ b
    → ((gen_employee a).name ≢ (gen_employee b).name)
      × ((gen_employee a).email ≢ (gen_employee b).email)
      × ((gen_employee a).number ≢ (gen_employee b).number)
unfolding gen_employee
employees_differ a b ha hb d = (
  λ e.
      let same : (a + 1) % 2 ^ 64 ≡ (b + 1) % 2 ^ 64 =
        sym (name_lem a) ∙ ap (λ t. parse_uint 0 (behind b'p' t)) e ∙ name_lem b in
      absurd (omega arith),
  λ e.
      let same : 10 * a ≡ 10 * b =
        sym (email_lem a ha) ∙ ap (λ t. parse_uint 0 (behind b'=' t)) e ∙ email_lem b hb in
      absurd (omega arith),
  λ e. absurd (omega arith),
)
