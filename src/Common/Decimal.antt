-- ===== src/Common/Decimal.antt =====
-- `%d` of Go's fmt on non-negative numbers.
use mathlib.Core.Path.{◌≡◌, refl, ap, sym, subst, ◌∙◌}
use mathlib.Core.Bool.{false}
use mathlib.Core.List.{[], ◌∷◌, ◌++◌}
use Prim.Native.Nat.{ℕ, zero, suc, ◌+◌, ◌-◌, ◌*◌, ◌/◌, ◌%◌, ◌<◌}
use native.Mathlib.Omega.{arith}
use dnssec_auditor.Common.Tests.{ltb, nat_eqb, if◌then◌else◌}
use dnssec_auditor.Common.Lists.{All}
use dnssec_auditor.Common.Equality.{Str}

decimal_from : ℕ → ℕ → Str → Str
decimal_from zero n acc = acc
decimal_from (suc f) n acc =
    let more = decimal_from f (n / 10) ((48 + n % 10) ∷ acc) in
    if ltb n 10 then (48 + n) ∷ acc else more

-- A number has fewer digits than its successor's value, so the fuel is enough.
pub decimal : ℕ → Str
unfolding decimal_from
decimal n = decimal_from (suc n) n []

value_from : ℕ → Str → ℕ
value_from v [] = v
value_from v (c ∷ s) = value_from (v * 10 + (c - 48)) s

value-decimal_from :
    (f n : ℕ) (acc : Str) → n < f → value_from 0 (decimal_from f n acc) ≡ value_from n acc
unfolding value_from decimal_from
value-decimal_from zero n acc h = elim h [ ]
value-decimal_from (suc f) n acc h = ground (
  arith,
  value-decimal_from f (n / 10) ((48 + n % 10) ∷ acc),
  ap (λ (v : ℕ). value_from v acc) last,
  ap (λ (v : ℕ). value_from v acc) only,
)
  where
    last : n / 10 * 10 + (48 + n % 10 - 48) ≡ n
    last = omega arith

    only : 0 * 10 + (48 + n - 48) ≡ n
    only = omega arith

-- Two numbers with the same digits are equal.
pub decimal_inj : (m n : ℕ) → decimal m ≡ decimal n → m ≡ n
unfolding decimal value_from
decimal_inj m n e =
    sym (value-decimal_from (suc m) m [] (omega arith))
    ∙ ap (value_from 0) e
    ∙ value-decimal_from (suc n) n [] (omega arith)

-- No byte of the text is the separator `|`.
abbrev pub bar : ℕ
bar = 124

abbrev pub NoBar : Str → Type 0
NoBar = All (λ c. nat_eqb c bar ≡ false)

decimal_from-NoBar : (f n : ℕ) (acc : Str) → NoBar acc → NoBar (decimal_from f n acc)
unfolding decimal_from
decimal_from-NoBar zero n acc h = h
decimal_from-NoBar (suc f) n acc h =
    ground (arith, decimal_from-NoBar f (n / 10) ((48 + n % 10) ∷ acc) (ground arith, h))

pub decimal-NoBar : (n : ℕ) → NoBar (decimal n)
unfolding decimal
decimal-NoBar n = decimal_from-NoBar (suc n) n [] tt

-- A text is cut at its first bar in one way only, and at its last.
pub first_bar :
    (a b x y : Str) → NoBar a → NoBar b → a ++ bar ∷ x ≡ b ++ bar ∷ y → (a ≡ b) × (x ≡ y)
first_bar [] [] x y ha hb e = (refl, cc)
first_bar [] (c ∷ b) x y ha hb e = ground arith
first_bar (c ∷ a) [] x y ha hb e = ground arith
first_bar (c ∷ a) (d ∷ b) x y ha hb e = ground (arith, first_bar a b x y ha.1 hb.1)

not_NoBar : (a x : Str) → ¬ NoBar (a ++ bar ∷ x)
not_NoBar [] x h = ground arith
not_NoBar (c ∷ a) x h = not_NoBar a x h.1

pub last_bar : (a b x y : Str) → NoBar x → NoBar y → a ++ bar ∷ x ≡ b ++ bar ∷ y → (a ≡ b) × (x ≡ y)
last_bar [] [] x y hx hy e = (refl, cc)
last_bar [] (c ∷ b) x y hx hy e =
    let tail : x ≡ b ++ bar ∷ y = cc in absurd (not_NoBar b y (subst NoBar tail hx))
last_bar (c ∷ a) [] x y hx hy e =
    let tail : y ≡ a ++ bar ∷ x = cc in absurd (not_NoBar a x (subst NoBar tail hy))
last_bar (c ∷ a) (d ∷ b) x y hx hy e = ground (arith, last_bar a b x y hx hy)
