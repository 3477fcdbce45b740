-- ===== src/Text/Case.antt =====
-- `strings.ToLower` and `TrimSpace`, `strconv.ParseBool`, and `strings.EqualFold` with an ASCII text without
-- the letters `k` and `s`, for which it is the same text in lower case.
use Prim.Native.Char.{Char, code}
use Prim.Native.String.{[], ◌∷◌}
use buildkit_cli_for_kubectl.Text.Unicode.{Rows, no_row, row, lower_rows}
use buildkit_cli_for_kubectl.Prelude.{
  String, ◌≡◌, refl, Bool, true, false, ◌&&◌, ◌||◌, Option, none, some, nat_eq, leb, ltb,
  if◌then◌else◌, ◌==◌,
}

-- The character of `to` at the place where `from` has `c`; else `c` itself.
translate : String → String → Char → Char
translate (f ∷ from) (t ∷ to) c =
    let rest = translate from to c in if nat_eq (code f) (code c) then t else rest
translate _ _ c = c

by_rows : Rows → Char → Char
unfolding translate
by_rows no_row c = c
by_rows (row from to rows) c = by_rows rows (translate from to c)

to_lower_ascii : Char → Char
unfolding translate
to_lower_ascii = translate "ABCDEFGHIJKLMNOPQRSTUVWXYZ" "abcdefghijklmnopqrstuvwxyz"

-- `unicode.ToLower`
by_width : Bool → Char → Char
unfolding by_rows to_lower_ascii
by_width true c = to_lower_ascii c
by_width false c = by_rows lower_rows c

to_lower_char : Char → Char
unfolding by_width
to_lower_char c = by_width (ltb (code c) 128) c

unfoldable pub to_lower : String → String
unfolding to_lower_char
to_lower [] = []
to_lower (c ∷ s) = to_lower_char c ∷ to_lower s

unfoldable pub equal_fold : String → String → Bool
unfolding to_lower
equal_fold s t = to_lower s == to_lower t

-- `unicode.IsSpace`
is_space : Char → Bool
is_space c =
    let n = code c in
    (nat_eq n 32 || (leb 9 n && leb n 13))
    || (nat_eq n 133 || nat_eq n 160 || nat_eq n 5760 || (leb 8192 n && leb n 8202))
    || (nat_eq n 8232 || nat_eq n 8233 || nat_eq n 8239 || nat_eq n 8287 || nat_eq n 12288)

trim_left : String → String
trim_left [] = []
trim_left (c ∷ s) = let rest = trim_left s in if is_space c then rest else c ∷ s

trim_right : String → String
trim_right [] = []
trim_right (c ∷ s) = let rest = trim_right s in if rest == "" && is_space c then "" else c ∷ rest

unfoldable pub trim_space : String → String
unfolding is_space trim_left trim_right
trim_space s = trim_right (trim_left s)

-- `strconv.ParseBool`: `none` is the syntax error
unfoldable pub parse_bool : String → Option Bool
parse_bool s =
    if s == "1" || s == "t" || s == "T" || s == "true" || s == "TRUE" || s == "True"
    then some true
    else if s == "0" || s == "f" || s == "F" || s == "false" || s == "FALSE" || s == "False"
    then some false
    else none

-- `b, _ := strconv.ParseBool(s)`: false where it fails
unfoldable pub parse_bool_or_false : String → Bool
unfolding parse_bool
parse_bool_or_false s = elim (parse_bool s) [ none ↦ false | some b ↦ b ]

to_lower_unicode_test : to_lower "ÉSЖİ\u{10c80}" ≡ "ésжi\u{10cc0}"
unfolding to_lower
to_lower_unicode_test = refl

to_lower_test : to_lower "Dest-9" ≡ "dest-9"
unfolding to_lower
to_lower_test = refl

trim_space_test : trim_space " \ta b\n " ≡ "a b"
unfolding trim_space
trim_space_test = refl
