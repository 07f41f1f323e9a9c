-- ===== src/Prelude/Strings.antt =====
-- JavaScript strings as lists of UTF-16 code units, with the string methods that the program calls.
use Prim.Native.Nat.{ℕ, suc}
use Prim.Native.Char.{code}
use Prim.Native.String.{String}
use mathlib.Core.Path.{◌≡◌, refl}
use mathlib.Core.Logic.{◌↔◌}
use mathlib.Core.Bool.{Bool, true, false, ◌&&◌, ◌||◌}
use mathlib.Core.List.{List, [], ◌∷◌, ◌++◌}
use mathlib.Core.Option
use mathlib.Core.Option.{Option, none, some}
use native.Mathlib.Omega.{arith}
use migration_safety_engine.Prelude.Tests.{leb, ◌==◌, if◌then◌else◌}

abbrev pub Text : Type 0
Text = List ℕ

-- A literal of the source; a code point of the basic plane is a code unit.
abbrev pub lit : String → Text
lit String.[] = []
lit (String.◌∷◌ c s) = code c ∷ lit s

-- `s === t`
unfoldable pub text_eq : Text → Text → Bool
text_eq [] [] = true
text_eq [] (c ∷ t) = false
text_eq (c ∷ s) [] = false
text_eq (c ∷ s) (d ∷ t) = c == d && text_eq s t

pub text_eq_iff : (s t : Text) → (text_eq s t ≡ true) ↔ (s ≡ t)
unfolding text_eq
text_eq_iff [] [] = (λ h. refl, λ h. refl)
text_eq_iff [] (d ∷ t) = ground arith
text_eq_iff (c ∷ s) [] = ground arith
text_eq_iff (c ∷ s) (d ∷ t) = ground (arith, text_eq_iff s t)

-- `!s` for a string
abbrev pub is_empty : Text → Bool
is_empty [] = true
is_empty (c ∷ s) = false

-- `s.indexOf(c)` for one character; -1 is `none`
unfoldable pub index_of : ℕ → Text → Option ℕ
index_of c [] = none
index_of c (d ∷ s) = let rest = index_of c s in if d == c then some 0 else Option.map suc rest

-- `s.startsWith(c)` for one character
abbrev pub starts_with : ℕ → Text → Bool
starts_with c [] = false
starts_with c (d ∷ s) = d == c

abbrev pub push_head : ℕ → List Text → List Text
push_head c [] = (c ∷ []) ∷ []
push_head c (part ∷ parts) = (c ∷ part) ∷ parts

-- `s.split(c)` for one character
unfoldable pub split : ℕ → Text → List Text
split c [] = [] ∷ []
split c (d ∷ s) = let parts = split c s in if d == c then [] ∷ parts else push_head d parts

-- the white space and line terminators that `trim` strips
unfoldable pub is_space : ℕ → Bool
is_space c =
    leb 9 c && leb c 13
    || c == 32
    || c == 160
    || c == 0x1680
    || leb 0x2000 c && leb c 0x200a
    || c == 0x2028
    || c == 0x2029
    || c == 0x202f
    || c == 0x205f
    || c == 0x3000
    || c == 0xfeff

unfoldable pub trim_start : Text → Text
unfolding is_space
trim_start [] = []
trim_start (c ∷ s) = let rest = trim_start s in if is_space c then rest else c ∷ s

abbrev pub keep_end : ℕ → Text → Text
keep_end c [] = if is_space c then [] else c ∷ []
keep_end c (d ∷ s) = c ∷ d ∷ s

unfoldable pub trim_end : Text → Text
unfolding is_space
trim_end [] = []
trim_end (c ∷ s) = keep_end c (trim_end s)

-- `s.trim()`
unfoldable pub trim : Text → Text
unfolding trim_end trim_start
trim s = trim_end (trim_start s)

-- `s.replace(/^c/, '')`
unfoldable pub strip_first : ℕ → Text → Text
strip_first c [] = []
strip_first c (d ∷ s) = if d == c then s else d ∷ s

-- `s.replace(/c$/, '')`
unfoldable pub strip_last : ℕ → Text → Text
strip_last c [] = []
strip_last c (d ∷ []) = if d == c then [] else d ∷ []
strip_last c (d ∷ e ∷ s) = d ∷ strip_last c (e ∷ s)

abbrev pub is_prefix : Text → Text → Bool
is_prefix [] s = true
is_prefix (c ∷ q) [] = false
is_prefix (c ∷ q) (d ∷ s) = c == d && is_prefix q s

-- `s.includes(q)`
unfoldable pub includes : Text → Text → Bool
includes q [] = is_prefix q []
includes q (c ∷ s) = is_prefix q (c ∷ s) || includes q s

-- `parts.join(c)` for one character
unfoldable pub join : ℕ → List Text → Text
join c [] = []
join c (part ∷ []) = part
join c (part ∷ next ∷ parts) = part ++ c ∷ join c (next ∷ parts)
