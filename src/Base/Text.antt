-- ===== src/Base/Text.antt =====
-- JavaScript strings: lists of UTF-16 code units, with the standard operations the code calls.
use Prim.Native.Nat.{ℕ, ◌+◌}
use mathlib.Core.Path.{◌≡◌, refl}
use mathlib.Core.Logic.{◌↔◌}
use mathlib.Core.Bool.{Bool, true, false, ◌&&◌, ◌||◌}
use mathlib.Core.List.{List, [], ◌∷◌}
use Prim.Native.Char.{code}
use Prim.Native.String.{String}
use native.Mathlib.Omega.{arith}
use loop_platform_zhb.Base.Tests.{ltb, leb, ◌==◌, if◌then◌else◌}

abbrev pub JsString : Type 0
JsString = List ℕ

-- An ASCII literal of the source.
abbrev pub js : String → JsString
js String.[] = []
js (String.◌∷◌ c s) = code c ∷ js s

-- `a === b`
unfoldable pub str_eq : JsString → JsString → Bool
str_eq [] [] = true
str_eq (c ∷ s) (d ∷ t) = c == d && str_eq s t
str_eq _ _ = false

pub str_eq_iff : (s t : JsString) → (str_eq s t ≡ true) ↔ (s ≡ t)
unfolding str_eq
str_eq_iff [] [] = ground arith
str_eq_iff [] (d ∷ t) = ground arith
str_eq_iff (c ∷ s) [] = ground arith
str_eq_iff (c ∷ s) (d ∷ t) = ground (arith, str_eq_iff s t)

pub str_eq_refl : (s : JsString) → str_eq s s ≡ true
str_eq_refl s = (str_eq_iff s s).1 refl

-- `s.includes(c)` for a text of one code unit
unfoldable pub includes : JsString → ℕ → Bool
includes [] c = false
includes (d ∷ s) c = d == c || includes s c

-- The WhiteSpace and LineTerminator code points of ECMAScript, which `trim` removes.
unfoldable pub is_whitespace : ℕ → Bool
is_whitespace c =
    (leb 9 c && leb c 13)
    || c == 32
    || c == 0xa0
    || c == 0x1680
    || (leb 0x2000 c && leb c 0x200a)
    || (leb 0x2028 c && leb c 0x2029)
    || c == 0x202f
    || c == 0x205f
    || c == 0x3000
    || c == 0xfeff

unfoldable pub trim_start : JsString → JsString
trim_start [] = []
trim_start (c ∷ s) = let rest = trim_start s in if is_whitespace c then rest else c ∷ s

abbrev pub is_empty : JsString → Bool
is_empty [] = true
is_empty (c ∷ s) = false

unfoldable pub trim_end : JsString → JsString
trim_end [] = []
trim_end (c ∷ s) =
    let rest = trim_end s in if is_whitespace c && is_empty rest then [] else c ∷ rest

-- `s.trim()`
unfoldable pub trim : JsString → JsString
unfolding trim_start trim_end is_whitespace
trim s = trim_end (trim_start s)

-- `charCodeAt` ranges of the two halves of a surrogate pair
abbrev pub is_high : ℕ → Bool
is_high c = leb 0xd800 c && leb c 0xdbff

abbrev pub is_low : ℕ → Bool
is_low c = leb 0xdc00 c && leb c 0xdfff

-- The UTF-8 bytes of a code unit that is no half of a pair; `TextEncoder` writes U+FFFD (three
-- bytes) for a lone surrogate.
abbrev pub unit_bytes : ℕ → ℕ
unit_bytes c = if ltb c 0x80 then 1 else if ltb c 0x800 then 2 else 3

-- `encoder.encode(s).length`
unfoldable pub utf8_length : JsString → ℕ
utf8_length [] = 0
utf8_length (c ∷ []) = unit_bytes c
utf8_length (c ∷ d ∷ s) =
    let pair = 4 + utf8_length s in
    let single = unit_bytes c + utf8_length (d ∷ s) in
    if is_high c && is_low d then pair else single
