-- ===== src/Prelude/Text.antt =====
-- What the program uses of Go's `strings`: TrimSpace, ToLower and Contains, TrimPrefix.
use Prim.Native.Nat.{Ordering, ℕ, zero, suc, ◌+◌, ◌/◌, ◌%◌}
use Prim.Native.Char.{code}
use Prim.Native.String.{String, [], ◌∷◌, ◌++◌}
use mathlib.Core.Path.{◌≡◌, refl}
use mathlib.Core.Bool.{Bool, true, false, ◌&&◌, ◌||◌}
use mathlib.Core.Option.{Option, none, some}
use text.Mathlib.Text.{◌==◌}
use agents_orchestrator.Prelude.Tests.{leb, nat_eq, if◌then◌else◌}

-- unicode.IsSpace
unfoldable pub is_space : ℕ → Bool
is_space c =
    (leb 9 c && leb c 13)
    || nat_eq c 32
    || nat_eq c 0x85
    || nat_eq c 0xa0
    || nat_eq c 0x1680
    || (leb 0x2000 c && leb c 0x200a)
    || nat_eq c 0x2028
    || nat_eq c 0x2029
    || nat_eq c 0x202f
    || nat_eq c 0x205f
    || nat_eq c 0x3000

unfoldable pub trim_left : String → String
unfolding is_space
trim_left [] = ""
trim_left (c ∷ s) = let rest = trim_left s in if is_space (code c) then rest else c ∷ s

unfoldable pub trim_right : String → String
unfolding is_space
trim_right [] = ""
trim_right (c ∷ s) =
    let rest = trim_right s in if rest == "" && is_space (code c) then "" else c ∷ rest

-- strings.TrimSpace
unfoldable pub trim_space : String → String
unfolding trim_left trim_right
trim_space s = trim_right (trim_left s)

-- strings.ToLower, over the letters whose lower case is an ASCII letter; it serves only to look
-- for ASCII texts.
unfoldable pub lower : ℕ → ℕ
lower c =
    if leb 65 c && leb c 90
    then c + 32
    else if nat_eq c 0x130
    then 105
    else if nat_eq c 0x212a
    then 107
    else c

begins : String → String → Bool
unfolding lower
begins [] s = true
begins (p ∷ ps) [] = false
begins (p ∷ ps) (c ∷ s) = nat_eq (lower (code c)) (code p) && begins ps s

-- strings.Contains(strings.ToLower(s), part), for a lower-case `part`
unfoldable pub lower_contains : String → String → Bool
unfolding begins
lower_contains part [] = begins part ""
lower_contains part (c ∷ s) = begins part (c ∷ s) || lower_contains part s

-- strings.TrimPrefix where strings.HasPrefix holds
unfoldable pub strip_prefix : String → String → Option String
strip_prefix [] s = some s
strip_prefix (p ∷ ps) [] = none
strip_prefix (p ∷ ps) (c ∷ s) = if nat_eq (code p) (code c) then strip_prefix ps s else none

abbrev pub concat : String → String → String
concat s t = s ++ t

-- strings.TrimSuffix where strings.HasSuffix holds, for a suffix of one character
unfoldable pub strip_suffix : String → String → Option String
strip_suffix suffix [] = none
strip_suffix suffix (c ∷ s) =
    if (c ∷ s) == suffix
    then some ""
    else elim (strip_suffix suffix s) [ none ↦ none | some rest ↦ some (c ∷ rest) ]

-- Go compares strings by their bytes, as the native order does.
abbrev pub text_le : String → String → Bool
text_le s t = elim (Prim.Native.String.compare s t) [ Ordering.gt ↦ false | _ ↦ true ]

digit : ℕ → String
digit d =
    if nat_eq d 0
    then "0"
    else if nat_eq d 1
    then "1"
    else if nat_eq d 2
    then "2"
    else if nat_eq d 3
    then "3"
    else if nat_eq d 4
    then "4"
    else if nat_eq d 5
    then "5"
    else if nat_eq d 6
    then "6"
    else if nat_eq d 7
    then "7"
    else if nat_eq d 8
    then "8"
    else "9"

-- The fuel is above the number, and each round divides that by ten.
show_loop : ℕ → ℕ → String → String
unfolding digit
show_loop zero n rest = rest
show_loop (suc fuel) n rest =
    let more = show_loop fuel (n / 10) (digit (n % 10) ++ rest) in
    if nat_eq (n / 10) 0 then digit (n % 10) ++ rest else more

-- %d
unfoldable pub show_ℕ : ℕ → String
unfolding show_loop
show_ℕ n = show_loop (suc n) n ""

show_runs : show_ℕ 1307 ≡ "1307"
unfolding show_ℕ
show_runs = refl

trim_space_runs : trim_space "  a b\n" ≡ "a b"
unfolding trim_space
trim_space_runs = refl

contains_runs : lower_contains "no terminators" "dial: No Terminators for x" ≡ true
unfolding lower_contains
contains_runs = refl

strip_prefix_runs : strip_prefix "workload-" "workload-7" ≡ some "7"
unfolding strip_prefix
strip_prefix_runs = refl
