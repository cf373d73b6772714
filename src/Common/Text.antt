-- ===== src/Common/Text.antt =====
-- The functions of Go's `strings` package that the program uses, on ASCII byte strings.
use mathlib.Core.Path.{◌≡◌, refl, ap, ◌∙◌}
use mathlib.Core.Logic.{◌≢◌}
use mathlib.Core.Bool.{Bool, true, not, ◌&&◌, ◌||◌}
use mathlib.Core.List.{[], ◌∷◌, ◌++◌, map}
use Prim.Native.Nat.{ℕ, ◌+◌, ◌-◌, ◌<◌}
use native.Mathlib.Omega.{arith}
use dnssec_auditor.Common.Tests.{leb, if◌then◌else◌}
use dnssec_auditor.Common.Lists.{All}
use dnssec_auditor.Common.Equality.{Str, ◌==◌, nat_eq, str_eq}

abbrev pub dot : ℕ
dot = 46

unfoldable pub lower_byte : ℕ → ℕ
lower_byte c = if leb 65 c && leb c 90 then c + 32 else c

-- strings.ToLower
unfoldable pub to_lower : Str → Str
unfolding lower_byte
to_lower s = map lower_byte s

upper_byte : ℕ → ℕ
upper_byte c = if leb 97 c && leb c 122 then c - 32 else c

-- strings.ToUpper
unfoldable pub to_upper : Str → Str
unfolding upper_byte
to_upper s = map upper_byte s

is_space : ℕ → Bool
is_space c = c == 32 || (leb 9 c && leb c 13)

trim_left : Str → Str
unfolding is_space
trim_left [] = []
trim_left (c ∷ s) = let rest = trim_left s in if is_space c then rest else c ∷ s

keep : ℕ → Str → Str
unfolding is_space
keep c [] = if is_space c then [] else c ∷ []
keep c (d ∷ s) = c ∷ d ∷ s

trim_right : Str → Str
unfolding keep
trim_right [] = []
trim_right (c ∷ s) = keep c (trim_right s)

-- strings.TrimSpace
unfoldable pub trim_space : Str → Str
unfolding trim_left trim_right
trim_space s = trim_right (trim_left s)

-- strings.HasSuffix
unfoldable pub has_suffix : Str → Str → Bool
has_suffix [] suffix = [] == suffix
has_suffix (c ∷ s) suffix = (c ∷ s) == suffix || has_suffix s suffix

abbrev pub ends_in_dot : Str → Bool
ends_in_dot s = has_suffix s (dot ∷ [])

-- The first byte, if there is one, is no space.
unfoldable pub starts_ok : Str → Bool
unfolding is_space
starts_ok [] = true
starts_ok (c ∷ s) = not (is_space c)

pub starts_ok-trim_space : (s : Str) → starts_ok (trim_space s) ≡ true
unfolding trim_space starts_ok
starts_ok-trim_space s = right (trim_left s) (left s)
  where
    left : (t : Str) → starts_ok (trim_left t) ≡ true
    left [] = refl
    left (c ∷ t) = ground (arith, left t)

    right : (t : Str) → starts_ok t ≡ true → starts_ok (trim_right t) ≡ true
    right [] h = refl
    right (c ∷ t) h = ground arith

pub starts_ok-to_lower : (s : Str) → starts_ok (to_lower s) ≡ starts_ok s
unfolding starts_ok to_lower
starts_ok-to_lower [] = refl
starts_ok-to_lower (c ∷ s) = ground arith

pub starts_ok-append_dot : (s : Str) → starts_ok s ≡ true → starts_ok (s ++ dot ∷ []) ≡ true
unfolding starts_ok
starts_ok-append_dot [] h = refl
starts_ok-append_dot (c ∷ s) h = h

pub to_lower-to_lower : (s : Str) → to_lower (to_lower s) ≡ to_lower s
unfolding to_lower
to_lower-to_lower [] = refl
to_lower-to_lower (c ∷ s) = ground (arith, to_lower-to_lower s)

-- A text that starts with no space and ends in a dot is trimmed.
pub trim_space_id : (s : Str) → starts_ok s ≡ true → ends_in_dot s ≡ true → trim_space s ≡ s
unfolding trim_space starts_ok has_suffix
trim_space_id [] h e = refl
trim_space_id (c ∷ s) h e = ground (arith, right (c ∷ s) e)
  where
    right : (t : Str) → ends_in_dot t ≡ true → trim_right t ≡ t
    right [] d = refl
    right (b ∷ []) d = ground arith
    right (b ∷ a ∷ t) d = ground (arith, right (a ∷ t))

-- A text of bytes that are no blanks is trimmed.
pub trim_space_solid : (s : Str) → All (λ c. 32 < c) s → trim_space s ≡ s
unfolding trim_space trim_left trim_right is_space
trim_space_solid s h = ap trim_right (left s h) ∙ right s h
  where
    left : (t : Str) → All (λ c. 32 < c) t → trim_left t ≡ t
    left [] h = refl
    left (c ∷ t) h = ground (arith, h.0)

    right : (t : Str) → All (λ c. 32 < c) t → trim_right t ≡ t
    right [] h = refl
    right (c ∷ []) h = ground (arith, h.0)
    right (c ∷ d ∷ t) h = rw (right (d ∷ t) h.1) refl

-- A text ends in a dot exactly if what it ends in does.
pub ends_in_dot-append :
    (s : Str) (c : ℕ) (t : Str) → ends_in_dot (s ++ c ∷ t) ≡ ends_in_dot (c ∷ t)
unfolding has_suffix
ends_in_dot-append [] c t = refl
ends_in_dot-append (b ∷ []) c t = ground (arith, ends_in_dot-append [] c t)
ends_in_dot-append (b ∷ a ∷ s) c t = ground (arith, ends_in_dot-append (a ∷ s) c t)

pub ends_in_dot_nil : ends_in_dot [] ≢ true
unfolding has_suffix
ends_in_dot_nil e = cc
