-- ===== src/Common/Texts.antt =====
-- What the code asks of texts: `in` on a tuple or a set of strings, and the tests on characters.
use Prim.Native.Nat.{ℕ, zero, suc, ◌-◌}
use Prim.Native.Char.{code}
use Prim.Native.String.{slice, len}
use mathlib.Core.Option.{none, some}
use text.Mathlib.Text.{find?}
use text.Mathlib.TextPositions.{eq_refl}
use Prim.Native.String.{String}
use mathlib.Core.Path.{◌≡◌}
use mathlib.Core.Bool.{Bool, true, false, ◌||◌, ◌&&◌, not}
use mathlib.Core.List.{List, [], ◌∷◌}
use native.Mathlib.Omega.{arith}
use text.Mathlib.Text.{◌==◌}
use text.Mathlib.TextEquality.{eq_iff}
use loop_engineer.Common.Tests.{all, any, nat_eq, ltb}

abbrev pub contains : List String → String → Bool
contains [] s = false
contains (x ∷ xs) s = s == x || contains xs s

-- A test that passes on every listed text passes on a member.
pub all-contains :
    (p : String → Bool) (xs : List String) (s : String)
    → all p xs ≡ true
    → contains xs s ≡ true
    → p s ≡ true
all-contains p [] s h m = cc
all-contains p (x ∷ xs) s h m = ground (arith, eq_iff s x, all-contains p xs s)

pub contains-head : (x : String) (xs : List String) → contains (x ∷ xs) x ≡ true
contains-head x xs = rw eq_refl

pub contains-tail :
    (s x : String) (xs : List String) → contains xs s ≡ true → contains (x ∷ xs) s ≡ true
contains-tail s x xs h = ground (arith, h)

-- No text stands twice: `len(set(xs)) == len(xs)`.
abbrev pub is_distinct : List String → Bool
is_distinct [] = true
is_distinct (x ∷ xs) = not (contains xs x) && is_distinct xs

-- `str.isspace` of one character: what `strip` removes.
abbrev space_codes : List ℕ
space_codes =
    9 ∷ 10 ∷ 11 ∷ 12 ∷ 13 ∷ 28 ∷ 29 ∷ 30 ∷ 31 ∷ 32 ∷ 133 ∷ 160 ∷ 5760 ∷ 8192 ∷ 8193 ∷ 8194 ∷ 8195
    ∷ 8196 ∷ 8197 ∷ 8198 ∷ 8199 ∷ 8200 ∷ 8201 ∷ 8202 ∷ 8232 ∷ 8233 ∷ 8239 ∷ 8287 ∷ 12288 ∷ []

-- `s.strip() == ""`
unfoldable pub is_blank : String → Bool
is_blank String.[] = true
is_blank (String.◌∷◌ c s) = any (nat_eq (code c)) space_codes && is_blank s

-- `s.endswith(t)`: as many bytes at the end of `s` as `t` has are `t`
abbrev pub ends_with : String → String → Bool
ends_with s t = slice s (len s - len t) (len s) == t

-- `t in s`
abbrev pub has_part : String → String → Bool
has_part s t = elim (find? s t) [ none ↦ false | some i ↦ true ]

-- `re.fullmatch(r"[0-9a-f]{64}", s)`
abbrev is_hex_code : ℕ → Bool
is_hex_code c = (not (ltb c b'0') && not (ltb b'9' c)) || (not (ltb c b'a') && not (ltb b'f' c))

hex_run : ℕ → String → Bool
hex_run zero String.[] = true
hex_run zero (String.◌∷◌ c s) = false
hex_run (suc n) String.[] = false
hex_run (suc n) (String.◌∷◌ c s) = is_hex_code (code c) && hex_run n s

unfoldable pub is_digest : String → Bool
unfolding hex_run
is_digest = hex_run 64
