-- ===== src/Common/Decimal.antt =====
-- The decimal print of a natural number, as fmt prints %d.
use Prim.Native.Nat.{ℕ, zero, suc, ◌+◌, ◌-◌, ◌*◌, ◌/◌, ◌%◌, ◌<◌}
use mathlib.Core.Path.{◌≡◌, refl, sym, ap, ◌∙◌}
use mathlib.Core.Bool.{Bool, true, ◌&&◌}
use mathlib.Core.Option.{Option, none, some}
use mathlib.Core.Logic.{inl, inr}
use mathlib.Core.List.{[], ◌∷◌}
use native.Mathlib.Omega.{arith}
use chronos_go.Common.Tests.{ltb, leb, if◌then◌else◌, Bool-cases}
use chronos_go.Common.Strings.{Text}

-- The digits before those of acc, most significant first.
unfoldable pub decimal_onto : ℕ → ℕ → Text → Text
decimal_onto zero n acc = acc
decimal_onto (suc fuel) n acc =
    let rest = decimal_onto fuel (n / 10) ((b'0' + n % 10) ∷ acc) in
    if ltb n 10 then (b'0' + n) ∷ acc else rest

-- A number has at most as many digits as its successor says.
unfoldable pub decimal : ℕ → Text
unfolding decimal_onto
decimal n = decimal_onto (suc n) n []

-- The number that digits stand for, read on from a value.
unfoldable pub read_onto : ℕ → Text → ℕ
read_onto v [] = v
read_onto v (c ∷ cs) = read_onto (v * 10 + (c - b'0')) cs

-- Reading a print back, whatever the value before it: v followed by the digits of n.
read_onto-decimal_onto :
    (fuel n : ℕ) (acc : Text) → n < fuel → read_onto 0 (decimal_onto fuel n acc) ≡ read_onto n acc
unfolding decimal_onto read_onto
read_onto-decimal_onto zero n acc h = elim h [ ]
read_onto-decimal_onto (suc fuel) n acc h = elim (Bool-cases (ltb n 10)) [
  | inl small ↦ rw small (ap (λ v. read_onto v acc) (omega arith))
  | inr big ↦ rw big (
      read_onto-decimal_onto fuel (n / 10) ((b'0' + n % 10) ∷ acc) (ground arith)
      ∙ ap (λ v. read_onto v acc) (omega arith))
]

-- Different numbers are printed differently.
pub decimal-injective : (m n : ℕ) → decimal m ≡ decimal n → m ≡ n
unfolding decimal read_onto
decimal-injective m n e =
    sym (read_onto-decimal_onto (suc m) m [] (omega arith))
    ∙ ap (read_onto 0) e
    ∙ read_onto-decimal_onto (suc n) n [] (omega arith)

abbrev pub is_digit : ℕ → Bool
is_digit c = leb b'0' c && leb c b'9'

unfoldable pub all_digits : Text → Bool
all_digits [] = true
all_digits (c ∷ cs) = is_digit c && all_digits cs

-- strconv.ParseInt in base 10, of an unsigned number. A sign, which no caller writes, is refused here.
unfoldable pub parse_int : Text → Option ℕ
unfolding all_digits read_onto
parse_int [] = none
parse_int (c ∷ cs) = if all_digits (c ∷ cs) then some (read_onto 0 (c ∷ cs)) else none

all_digits-decimal_onto :
    (fuel n : ℕ) (acc : Text) → all_digits acc ≡ true → all_digits (decimal_onto fuel n acc) ≡ true
unfolding all_digits decimal_onto
all_digits-decimal_onto zero n acc h = h
all_digits-decimal_onto (suc fuel) n acc h = elim (Bool-cases (ltb n 10)) [
  | inl small ↦ rw small (ground arith)
  | inr big ↦ rw big (all_digits-decimal_onto fuel (n / 10) ((b'0' + n % 10) ∷ acc) (ground arith))
]

decimal_onto-cons :
    (fuel n c : ℕ) (acc : Text) → (d : ℕ) × (ds : Text) × (decimal_onto fuel n (c ∷ acc) ≡ d ∷ ds)
unfolding decimal_onto
decimal_onto-cons zero n c acc = (c, acc, refl)
decimal_onto-cons (suc fuel) n c acc = elim (Bool-cases (ltb n 10)) [
  | inl small ↦ (b'0' + n, c ∷ acc, rw small refl)
  | inr big ↦ rw big (decimal_onto-cons fuel (n / 10) (b'0' + n % 10) (c ∷ acc))
]

decimal-cons : (n : ℕ) → (d : ℕ) × (ds : Text) × (decimal n ≡ d ∷ ds)
unfolding decimal
decimal-cons n = elim (Bool-cases (ltb n 10)) [
  | inl small ↦ (b'0' + n, [], rw small refl)
  | inr big ↦ rw big (decimal_onto-cons n (n / 10) (b'0' + n % 10) [])
]

-- What is printed is parsed back.
pub parse_int-decimal : (n : ℕ) → parse_int (decimal n) ≡ some n
unfolding decimal parse_int
parse_int-decimal n =
    by_cons (decimal n) (decimal-cons n) (all_digits-decimal_onto (suc n) n [] refl)
      (read_onto-decimal_onto (suc n) n [] (omega arith))
  where
    by_cons :
        (s : Text)
        → ((d : ℕ) × (ds : Text) × (s ≡ d ∷ ds))
        → all_digits s ≡ true
        → read_onto 0 s ≡ n
        → parse_int s ≡ some n
    by_cons [] (d, ds, e) digits same = cc
    by_cons (c ∷ cs) there digits same = rw digits (ap some same)
