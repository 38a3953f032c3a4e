-- ===== src/Prelude/Text.antt =====
-- The string functions of the standard library that the program calls, on native strings.
use Prim.Native.Nat.{ℕ, zero, suc, ◌+◌, ◌/◌, ◌%◌}
use Prim.Native.Char.{Char, code}
use Prim.Native.String
use Prim.Native.String.{String, [], ◌∷◌}
use mathlib.Core.Bool.{Bool, true, false, ◌&&◌, ◌||◌}
use mathlib.Core.Option.{Option, none, some}
use mathlib.Core.List.{List}
use text.Mathlib.Text.{◌==◌ as str_eq}
use collecta.Prelude.Tests.{◌==◌, leb, ltb, if◌then◌else◌}

infixr 60 ◌+++◌
-- The text `s` and then the text `t`.
abbrev pub ◌+++◌ : String → String → String
s +++ t = String.◌++◌ s t

-- `text.starts_with(prefix)`
abbrev pub begins_with : (text prefix : String) → Bool
begins_with text [] = true
begins_with [] (c ∷ p) = false
begins_with (d ∷ s) (c ∷ p) = code d == code c && begins_with s p

-- `text.ends_with(suffix)`
abbrev pub ends_with : (text suffix : String) → Bool
ends_with [] suffix = str_eq [] suffix
ends_with (c ∷ s) suffix = str_eq (c ∷ s) suffix || ends_with s suffix

-- `text.strip_prefix(c)` for a character `c`
abbrev pub strip_first : ℕ → String → Option String
strip_first c [] = none
strip_first c (d ∷ s) = if code d == c then some s else none

abbrev pub put_first : Char → Option String → Option String
put_first d none = none
put_first d (some s) = some (d ∷ s)

-- `text.strip_suffix(c)` for a character `c`
abbrev pub strip_last : ℕ → String → Option String
strip_last c [] = none
strip_last c (d ∷ []) = if code d == c then some [] else none
strip_last c (d ∷ (e ∷ s)) = put_first d (strip_last c (e ∷ s))

-- The Unicode White_Space property, as `char::is_whitespace` tests it.
abbrev pub is_whitespace : ℕ → Bool
is_whitespace c =
    (leb 9 c && leb c 13)
    || c == 32
    || c == 0x85
    || c == 0xa0
    || c == 0x1680
    || (leb 0x2000 c && leb c 0x200a)
    || c == 0x2028
    || c == 0x2029
    || c == 0x202f
    || c == 0x205f
    || c == 0x3000

abbrev flush : String → List String → List String
flush [] words = words
flush (c ∷ s) words = List.◌∷◌ (c ∷ s) words

abbrev words_of : String → String → List String
words_of word [] = flush word List.[]
words_of word (c ∷ s) =
    let split = flush word (words_of [] s) in
    let longer = words_of (word +++ (c ∷ [])) s in if is_whitespace (code c) then split else longer

-- `text.split_whitespace()`
unfoldable pub split_whitespace : String → List String
split_whitespace text = words_of [] text

-- `values.join(separator)`
unfoldable pub join : String → List String → String
join separator List.[] = ""
join separator (List.◌∷◌ s List.[]) = s
join separator (List.◌∷◌ s (List.◌∷◌ t rest)) =
    s +++ (separator +++ join separator (List.◌∷◌ t rest))

abbrev digit : ℕ → String
digit d = String.slice "0123456789" d (d + 1)

show_fuel : ℕ → ℕ → String
show_fuel zero n = ""
show_fuel (suc f) n =
    let higher = show_fuel f (n / 10) in if ltb n 10 then digit n else higher +++ digit (n % 10)

-- `n.to_string()` in decimal; twenty digits are enough for 64 bits.
unfoldable pub show_ℕ : ℕ → String
unfolding show_fuel
show_ℕ n = show_fuel 20 n

abbrev trim_start : String → String
trim_start [] = []
trim_start (c ∷ s) = let rest = trim_start s in if is_whitespace (code c) then rest else c ∷ s

-- A character in front of a text that is already trimmed at its end.
abbrev trim_cons : Char → String → String
trim_cons c [] = if is_whitespace (code c) then [] else c ∷ []
trim_cons c (d ∷ s) = c ∷ (d ∷ s)

abbrev trim_end : String → String
trim_end [] = []
trim_end (c ∷ s) = trim_cons c (trim_end s)

-- `text.trim()`
unfoldable pub trim : String → String
trim text = trim_end (trim_start text)

abbrev on_first : Char → List String → List String
on_first c List.[] = List.◌∷◌ (c ∷ []) List.[]
on_first c (List.◌∷◌ s rest) = List.◌∷◌ (c ∷ s) rest

-- `text.split(c)` for a character `c`
unfoldable pub split_on : ℕ → String → List String
split_on c [] = List.◌∷◌ [] List.[]
split_on c (d ∷ s) =
    let rest = split_on c s in if code d == c then List.◌∷◌ [] rest else on_first d rest

abbrev lower_code : ℕ → ℕ
lower_code c = if leb b'A' c && leb c b'Z' then c + 32 else c

-- `s.eq_ignore_ascii_case(t)`
abbrev pub eq_ignore_case : String → String → Bool
eq_ignore_case [] [] = true
eq_ignore_case (c ∷ s) (d ∷ t) = lower_code (code c) == lower_code (code d) && eq_ignore_case s t
eq_ignore_case _ _ = false
