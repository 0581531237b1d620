-- ===== src/Prelude/Text.antt =====
-- Go's `strings` functions that the program calls, over the native `String`.
use Prim.Native.Char.{Char, code}
use Prim.Native.Nat.{ℕ}
use Prim.Native.String.{String, [], ◌∷◌, ◌++◌}
use Prim.Native.String.append
use mathlib.Core.Path.{◌≡◌, refl, sym, ap, ap₂, ◌∙◌}
use mathlib.Core.Bool.{Bool, true, false, not, ◌&&◌, ◌||◌}
use mathlib.Core.Option.{Option, none, some}
use mathlib.Core.Logic.{inl, inr, ◌≢◌}
use native.Mathlib.Omega.{arith}
use text.Mathlib.TextEquality.{Char-path}
use package.karpenter_provider_rafay.Prelude.Tests.{nat_eq, ltb, leb, if◌then◌else◌, Bool-cases}

-- strings.HasPrefix(s, prefix)
unfoldable pub has_prefix : String → String → Bool
has_prefix s [] = true
has_prefix [] (d ∷ p) = false
has_prefix (c ∷ s) (d ∷ p) = nat_eq (code c) (code d) && has_prefix s p

-- What stands behind a prefix of the length of `prefix`; strings.TrimPrefix where it is one.
unfoldable pub after_prefix : String → String → String
after_prefix s [] = s
after_prefix [] (d ∷ p) = []
after_prefix (c ∷ s) (d ∷ p) = after_prefix s p

-- strings.TrimPrefix(s, prefix)
unfoldable pub trim_prefix : String → String → String
unfolding has_prefix after_prefix
trim_prefix s p = if has_prefix s p then after_prefix s p else s

-- strings.SplitN(s, sep, 2) for a separator of one character: `none` where there is no separator,
-- that is where Go returns the whole text as the only part.
unfoldable pub cut : Char → String → Option (String × String)
cut sep [] = none
cut sep (c ∷ s) = elim (nat_eq (code c) (code sep)) [
  | true ↦ some ([], s)
  | false ↦ elim (cut sep s) [ none ↦ none | some (l, r) ↦ some (c ∷ l, r) ]
]

-- unicode.IsSpace
pub is_space : ℕ → Bool
is_space c =
    (leb 9 c && leb c 13)
    || nat_eq c 32
    || nat_eq c 0x85
    || nat_eq c 0xA0
    || nat_eq c 0x1680
    || (leb 0x2000 c && leb c 0x200A)
    || nat_eq c 0x2028
    || nat_eq c 0x2029
    || nat_eq c 0x202F
    || nat_eq c 0x205F
    || nat_eq c 0x3000

pub trim_left : String → String
unfolding is_space
trim_left [] = []
trim_left (c ∷ s) = let rest = trim_left s in if is_space (code c) then rest else c ∷ s

-- A character before a text that does not end in a space.
put_before : Char → String → String
unfolding is_space
put_before c [] = if is_space (code c) then [] else c ∷ []
put_before c (d ∷ r) = c ∷ d ∷ r

-- Drops the spaces at the end.
pub trim_right : String → String
unfolding put_before
trim_right [] = []
trim_right (c ∷ s) = put_before c (trim_right s)

-- strings.TrimSpace(s)
unfoldable pub trim_space : String → String
unfolding trim_left trim_right
trim_space s = trim_right (trim_left s)

-- The order of texts, by their code points, which is that of their bytes.
unfoldable pub text_le : String → String → Bool
text_le [] t = true
text_le (c ∷ s) [] = false
text_le (c ∷ s) (d ∷ t) =
    let rest = text_le s t in
    if ltb (code c) (code d) then true else nat_eq (code c) (code d) && rest

-- strings.TrimSuffix(s, "%")
unfoldable pub trim_percent : String → String
trim_percent [] = []
trim_percent (c ∷ s) =
    let rest = trim_percent s in
    elim s [ [] ↦ if nat_eq (code c) 37 then [] else c ∷ [] | d ∷ r ↦ c ∷ rest ]

pub has_prefix-append : (p r : String) → has_prefix (p ++ r) p ≡ true
unfolding has_prefix
has_prefix-append [] r = refl
has_prefix-append (c ∷ p) r = rw (append.cons c p r) (ground (arith, has_prefix-append p r))

pub after_prefix-append : (p r : String) → after_prefix (p ++ r) p ≡ r
unfolding after_prefix
after_prefix-append [] r = append.nil r
after_prefix-append (c ∷ p) r = rw (append.cons c p r) (after_prefix-append p r)

and_parts : (a b : Bool) → (a && b) ≡ true → (a ≡ true) × (b ≡ true)
and_parts a b h = ground arith

nat_eq-eq : (a b : ℕ) → nat_eq a b ≡ true → a ≡ b
nat_eq-eq a b h = ground arith

-- A text with a prefix is the prefix with what follows it.
pub has_prefix-eq : (s p : String) → has_prefix s p ≡ true → s ≡ p ++ after_prefix s p
unfolding has_prefix after_prefix
has_prefix-eq s [] h = sym (append.nil s)
has_prefix-eq [] (d ∷ p) h = cc
has_prefix-eq (c ∷ s) (d ∷ p) h =
    let both = and_parts (nat_eq (code c) (code d)) (has_prefix s p) h in
    ap₂ ◌∷◌ (Char-path c d (nat_eq-eq _ _ both.0)) (has_prefix-eq s p both.1)
    ∙ sym (append.cons d p (after_prefix s p))

-- A text does not start with a space.
abbrev no_space_first : String → Bool
no_space_first [] = true
no_space_first (c ∷ s) = not (is_space (code c))

trim_left_first : (s : String) → no_space_first (trim_left s) ≡ true
unfolding trim_left
trim_left_first [] = refl
trim_left_first (c ∷ s) = ground (arith, trim_left_first s)

put_before_first :
    (c : Char) (t : String)
    → not (is_space (code c)) ≡ true
    → no_space_first (put_before c t) ≡ true
unfolding put_before
put_before_first c [] h = elim (Bool-cases (is_space (code c))) [
  | inl e ↦ rw (put_before, e) refl
  | inr e ↦ rw (put_before, e) (rw e refl)
]
put_before_first c (d ∷ r) h = h

trim_right_first : (s : String) → no_space_first s ≡ true → no_space_first (trim_right s) ≡ true
unfolding trim_right
trim_right_first [] h = refl
trim_right_first (c ∷ s) h = put_before_first c (trim_right s) h

trim_left_none : (s : String) → no_space_first s ≡ true → trim_left s ≡ s
unfolding trim_left
trim_left_none [] h = refl
trim_left_none (c ∷ s) h = ground (arith, h)

put_before_twice :
    (c : Char) (t : String) → trim_right t ≡ t → trim_right (put_before c t) ≡ put_before c t
unfolding trim_right put_before
put_before_twice c [] h = elim (Bool-cases (is_space (code c))) [
  | inl e ↦ rw (put_before, e) refl
  | inr e ↦ rw (put_before, e) (rw (trim_right, put_before, e) refl)
]
put_before_twice c (d ∷ r) h = ap (put_before c) h

trim_right_twice : (s : String) → trim_right (trim_right s) ≡ trim_right s
unfolding trim_right
trim_right_twice [] = refl
trim_right_twice (c ∷ s) = put_before_twice c (trim_right s) (trim_right_twice s)

-- What is trimmed has nothing more to trim.
pub trim_space_twice : (s : String) → trim_space (trim_space s) ≡ trim_space s
unfolding trim_space
trim_space_twice s =
    ap trim_right (
      trim_left_none (trim_right (trim_left s))
        (trim_right_first (trim_left s) (trim_left_first s)))
    ∙ trim_right_twice (trim_left s)

abbrev is_text : String → Bool
is_text [] = false
is_text (c ∷ s) = true

-- A text is not empty with another one behind it.
pub append-nonempty : (s t : String) → s ≢ "" → s ++ t ≢ ""
append-nonempty [] t ne = absurd (ne refl)
append-nonempty (c ∷ s) t ne =
    λ h. let k : true ≡ false = ap is_text (sym (append.cons c s t) ∙ h) in cc
