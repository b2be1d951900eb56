-- ===== src/Prelude/Js.antt =====
-- What the code uses of JavaScript's numbers: the value of `Number(text)`, and `String(n)`.
-- A whole number is kept exactly; `fraction` stands for every other value that is not NaN.
use Prim.Native.Nat.{ℕ, zero, suc}
use mathlib.Core.Bool.{Bool, true, false}
use mathlib.Core.Option.{Option, none, some}
use mathlib.Core.Path.{◌≡◌, ap}
use marketplace_api.Prelude.Lists.{length, replicate, length-replicate}
use marketplace_api.Prelude.Tests.{Text}

pub data Number : Type 0 where
  nan : Number
  fraction : Number
  nat : ℕ → Number
  negative : ℕ → Number

-- `Number.isNaN`
abbrev pub is_nan : Number → Bool
is_nan nan = true
is_nan _ = false

-- `Number.isInteger(x)`; `negative n` is -(n + 1).
abbrev pub is_integer : Number → Bool
is_integer (nat n) = true
is_integer (negative n) = true
is_integer nan = false
is_integer fraction = false

-- `Number.isInteger(x) && x > 0`, with the value.
abbrev pub positive? : Number → Option ℕ
positive? (nat (suc n)) = some (suc n)
positive? (nat zero) = none
positive? (negative n) = none
positive? nan = none
positive? fraction = none

-- The two conversions between texts and numbers. The law is what the code relies on: an id that
-- is printed and read again is the same id.
pub record Conversions : Type 0 where
  pub number : Text → Number
  pub string : ℕ → Text
  pub number-string : (n : ℕ) → number (string n) ≡ nat n

-- Conversions that satisfy the law: tally marks.
abbrev pub tally : ℕ → Text
tally n = replicate n b'1'

pub number-tally : (n : ℕ) → nat (length (tally n)) ≡ nat n
number-tally n = ap nat (length-replicate n b'1')

unfoldable pub unary : Conversions
unary = record { number = λ s. nat (length s); string = tally; number-string = number-tally }
