-- ===== src/Amqp/Spec/Bits.antt =====
-- The octet in which a method packs its flags: `bits |= 1 << k` and `bits&(1<<k) > 0`.
use gitbook_golang.Prelude.{ℕ, ◌^◌, ◌<◌, bit_and, bit_or, ◌≡◌, Bool, arith, ltb, if◌then◌else◌}

unfoldable pub set_bit : Bool → ℕ → ℕ → ℕ
set_bit flag k bits = if flag then bit_or bits (2 ^ k) else bits

unfoldable pub has_bit : ℕ → ℕ → Bool
has_bit bits k = ltb 0 (bit_and bits (2 ^ k))

module _ (a : Bool) where
  pub one-lt : set_bit a 0 0 < 256
  unfolding set_bit
  one-lt = ground arith

  pub has-one_0 : has_bit (set_bit a 0 0) 0 ≡ a
  unfolding set_bit has_bit
  has-one_0 = ground arith

module _ (a b : Bool) where
  pub two-lt : set_bit b 1 (set_bit a 0 0) < 256
  unfolding set_bit
  two-lt = ground arith

  pub has-two_0 : has_bit (set_bit b 1 (set_bit a 0 0)) 0 ≡ a
  unfolding set_bit has_bit
  has-two_0 = ground arith

  pub has-two_1 : has_bit (set_bit b 1 (set_bit a 0 0)) 1 ≡ b
  unfolding set_bit has_bit
  has-two_1 = ground arith

module _ (a b c : Bool) where
  pub three-lt : set_bit c 2 (set_bit b 1 (set_bit a 0 0)) < 256
  unfolding set_bit
  three-lt = ground arith

  pub has-three_0 : has_bit (set_bit c 2 (set_bit b 1 (set_bit a 0 0))) 0 ≡ a
  unfolding set_bit has_bit
  has-three_0 = ground arith

  pub has-three_1 : has_bit (set_bit c 2 (set_bit b 1 (set_bit a 0 0))) 1 ≡ b
  unfolding set_bit has_bit
  has-three_1 = ground arith

  pub has-three_2 : has_bit (set_bit c 2 (set_bit b 1 (set_bit a 0 0))) 2 ≡ c
  unfolding set_bit has_bit
  has-three_2 = ground arith

module _ (a b c d : Bool) where
  pub four-lt : set_bit d 3 (set_bit c 2 (set_bit b 1 (set_bit a 0 0))) < 256
  unfolding set_bit
  four-lt = ground arith

  pub has-four_0 : has_bit (set_bit d 3 (set_bit c 2 (set_bit b 1 (set_bit a 0 0)))) 0 ≡ a
  unfolding set_bit has_bit
  has-four_0 = ground arith

  pub has-four_1 : has_bit (set_bit d 3 (set_bit c 2 (set_bit b 1 (set_bit a 0 0)))) 1 ≡ b
  unfolding set_bit has_bit
  has-four_1 = ground arith

  pub has-four_2 : has_bit (set_bit d 3 (set_bit c 2 (set_bit b 1 (set_bit a 0 0)))) 2 ≡ c
  unfolding set_bit has_bit
  has-four_2 = ground arith

  pub has-four_3 : has_bit (set_bit d 3 (set_bit c 2 (set_bit b 1 (set_bit a 0 0)))) 3 ≡ d
  unfolding set_bit has_bit
  has-four_3 = ground arith

module _ (a b c d e : Bool) where
  pub five-lt : set_bit e 4 (set_bit d 3 (set_bit c 2 (set_bit b 1 (set_bit a 0 0)))) < 256
  unfolding set_bit
  five-lt = ground arith

  pub has-five_0 :
      has_bit (set_bit e 4 (set_bit d 3 (set_bit c 2 (set_bit b 1 (set_bit a 0 0))))) 0 ≡ a
  unfolding set_bit has_bit
  has-five_0 = ground arith

  pub has-five_1 :
      has_bit (set_bit e 4 (set_bit d 3 (set_bit c 2 (set_bit b 1 (set_bit a 0 0))))) 1 ≡ b
  unfolding set_bit has_bit
  has-five_1 = ground arith

  pub has-five_2 :
      has_bit (set_bit e 4 (set_bit d 3 (set_bit c 2 (set_bit b 1 (set_bit a 0 0))))) 2 ≡ c
  unfolding set_bit has_bit
  has-five_2 = ground arith

  pub has-five_3 :
      has_bit (set_bit e 4 (set_bit d 3 (set_bit c 2 (set_bit b 1 (set_bit a 0 0))))) 3 ≡ d
  unfolding set_bit has_bit
  has-five_3 = ground arith

  pub has-five_4 :
      has_bit (set_bit e 4 (set_bit d 3 (set_bit c 2 (set_bit b 1 (set_bit a 0 0))))) 4 ≡ e
  unfolding set_bit has_bit
  has-five_4 = ground arith

pub ruleset flag_laws = (
  has-one_0, has-two_0, has-two_1, has-three_0, has-three_1, has-three_2, has-four_0, has-four_1,
  has-four_2, has-four_3, has-five_0, has-five_1, has-five_2, has-five_3, has-five_4,
)
