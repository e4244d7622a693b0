-- ===== src/Base/Text/Decimal.antt =====
-- The digits of a number: they read back as the number, and the fuel never cuts them.
use Prim.Native.Nat.{ℕ, zero, suc, ◌+◌, ◌-◌, ◌*◌, ◌/◌, ◌%◌, ◌<◌}
use Prim.Native.Char.{code}
use Prim.Native.String.{String}
use mathlib.Core.Path.{◌≡◌, refl, ◌∙◌}
use mathlib.Core.Logic.{inl, inr}
use mathlib.Core.Bool.{true, ◌&&◌}
use native.Mathlib.Omega.{arith}
use text.Mathlib.TextLemmas.{nil-append, cons-append}
use guardian_os_ai.Base.Tests.{ltb, Bool-cases}
use guardian_os_ai.Base.Text.{◌^^◌, decimal, decimal_from, digit, lacks}

-- The number that digits stand for, after the digits of `acc`.
abbrev pub value_from : ℕ → String → ℕ
value_from acc String.[] = acc
value_from acc (String.◌∷◌ c s) = value_from (acc * 10 + (code c - 48)) s

digit_value : (acc d : ℕ) → d < 10 → value_from acc (digit d) ≡ acc * 10 + d
unfolding digit
digit_value acc zero h = refl
digit_value acc (suc zero) h = refl
digit_value acc (suc (suc zero)) h = refl
digit_value acc (suc (suc (suc zero))) h = refl
digit_value acc (suc (suc (suc (suc zero)))) h = refl
digit_value acc (suc (suc (suc (suc (suc zero))))) h = refl
digit_value acc (suc (suc (suc (suc (suc (suc zero)))))) h = refl
digit_value acc (suc (suc (suc (suc (suc (suc (suc zero))))))) h = refl
digit_value acc (suc (suc (suc (suc (suc (suc (suc (suc zero)))))))) h = refl
digit_value acc (suc (suc (suc (suc (suc (suc (suc (suc (suc zero))))))))) h = refl
digit_value acc (suc (suc (suc (suc (suc (suc (suc (suc (suc (suc d)))))))))) h =
    absurd (omega arith)

value_from-append :
    (acc : ℕ) (a b : String) → value_from acc (a ^^ b) ≡ value_from (value_from acc a) b
value_from-append acc String.[] b = rw (nil-append b) refl
value_from-append acc (String.◌∷◌ c a) b =
    rw (cons-append c a b) (value_from-append (acc * 10 + (code c - 48)) a b)

decimal_from_value : (fuel n : ℕ) → n < fuel → value_from 0 (decimal_from fuel n) ≡ n
unfolding decimal_from
decimal_from_value zero n h = elim h [ ]
decimal_from_value (suc fuel) n h = elim (Bool-cases (ltb n 10)) [
  | inl small ↦ rw small (digit_value 0 n (ground (arith, small)) ∙ omega arith)
  | inr large ↦ rw large (
      value_from-append 0 (decimal_from fuel (n / 10)) (digit (n % 10))
      ∙ (rw (decimal_from_value fuel (n / 10) (ground (arith, h, large)))
          (digit_value (n / 10) (n % 10) (omega arith) ∙ omega arith)))
]

-- The digits of a number stand for it.
pub value-decimal : (n : ℕ) → value_from 0 (decimal n) ≡ n
unfolding decimal
value-decimal n = decimal_from_value (suc n) n (omega arith)

pub lacks-append : (c : ℕ) (a b : String) → lacks c (a ^^ b) ≡ (lacks c a && lacks c b)
lacks-append c String.[] b = rw (nil-append b) refl
lacks-append c (String.◌∷◌ d s) b = rw (cons-append d s b) (ground (arith, lacks-append c s b))

digit-lacks_slash : (d : ℕ) → d < 10 → lacks b'/' (digit d) ≡ true
unfolding digit
digit-lacks_slash zero h = refl
digit-lacks_slash (suc zero) h = refl
digit-lacks_slash (suc (suc zero)) h = refl
digit-lacks_slash (suc (suc (suc zero))) h = refl
digit-lacks_slash (suc (suc (suc (suc zero)))) h = refl
digit-lacks_slash (suc (suc (suc (suc (suc zero))))) h = refl
digit-lacks_slash (suc (suc (suc (suc (suc (suc zero)))))) h = refl
digit-lacks_slash (suc (suc (suc (suc (suc (suc (suc zero))))))) h = refl
digit-lacks_slash (suc (suc (suc (suc (suc (suc (suc (suc zero)))))))) h = refl
digit-lacks_slash (suc (suc (suc (suc (suc (suc (suc (suc (suc zero))))))))) h = refl
digit-lacks_slash (suc (suc (suc (suc (suc (suc (suc (suc (suc (suc d)))))))))) h =
    absurd (omega arith)

decimal_from-lacks_slash : (fuel n : ℕ) → lacks b'/' (decimal_from fuel n) ≡ true
unfolding decimal_from
decimal_from-lacks_slash zero n = refl
decimal_from-lacks_slash (suc fuel) n = elim (Bool-cases (ltb n 10)) [
  | inl small ↦ rw small (digit-lacks_slash n (ground (arith, small)))
  | inr large ↦
      rw (large, lacks-append b'/' (decimal_from fuel (n / 10)) (digit (n % 10)))
        (rw (decimal_from-lacks_slash fuel (n / 10), digit-lacks_slash (n % 10) (omega arith)) refl)
]

pub decimal-lacks_slash : (n : ℕ) → lacks b'/' (decimal n) ≡ true
unfolding decimal
decimal-lacks_slash n = decimal_from-lacks_slash (suc n) n
