-- ===== src/Text/Csv.antt =====
-- One `Read` of an `encoding/csv` reader with the default settings: the fields of the first record.
-- A parse error keeps its kind and drops the line and column.
use Prim.Native.Char.{Char, code}
use Prim.Native.String.{[], ◌∷◌}
use mathlib.Core.List.{[] as nil, ◌∷◌ as cons}
use buildkit_cli_for_kubectl.Prelude.{
  ℕ, String, ◌≡◌, ◌≢◌, refl, Bool, true, ◌&&◌, List, nat_eq, if◌then◌else◌, arith, inl, inr, ◌⊎◌,
  Result, ok, err, Error, external, ◌==◌, eq_iff,
}
use buildkit_cli_for_kubectl.Text.Split.{split, has_code, push_first, Lacks}

abbrev pub eof_error : Error
eof_error = external "EOF"

abbrev pub bare_quote : Error
bare_quote = external "parse error: bare \" in non-quoted-field"

abbrev pub quote_error : Error
quote_error = external "parse error: extraneous or missing \" in quoted-field"

-- Where the reader stands: before a field, in a plain field, in a quoted one, behind a quote in one.
pub data Mode : Type 0 where
  start bare quoted closing : Mode

pub data Act : Type 0 where
  push skip comma stop : Act
  fail : Error → Act

read_bare : ℕ → Act
read_bare c =
    if nat_eq c b','
    then comma
    else if nat_eq c b'\n'
    then stop
    else if nat_eq c b'"'
    then fail bare_quote
    else push

act : Mode → ℕ → Act
unfolding read_bare
act start c = if nat_eq c b'"' then skip else read_bare c
act bare c = read_bare c
act quoted c = if nat_eq c b'"' then skip else push
act closing c =
    if nat_eq c b'"'
    then push
    else if nat_eq c b','
    then comma
    else if nat_eq c b'\n'
    then stop
    else fail quote_error

next : Mode → ℕ → Mode
next start c = if nat_eq c b'"' then quoted else if nat_eq c b',' then start else bare
next bare c = if nat_eq c b',' then start else bare
next quoted c = if nat_eq c b'"' then closing else quoted
next closing c = if nat_eq c b'"' then quoted else start

extend : Act → Char → Result (List String) → Result (List String)
extend push c (ok fields) = ok (push_first c fields)
extend push c (err e) = err e
extend skip c rest = rest
extend comma c (ok fields) = ok (cons "" fields)
extend comma c (err e) = err e
extend stop c rest = ok (cons "" nil)
extend (fail e) c rest = err e

fields : Mode → String → Result (List String)
unfolding act next extend
fields quoted [] = err quote_error
fields _ [] = ok (cons "" nil)
fields m (c ∷ s) = let rest = fields (next m (code c)) s in extend (act m (code c)) c rest

-- A line's end `\r\n` is read as `\n`, and a `\r` at the end of the input is dropped.
ends_line : String → Bool
ends_line [] = true
ends_line (c ∷ s) = nat_eq (code c) b'\n'

drop_cr : String → String
drop_cr [] = []
drop_cr (c ∷ s) =
    let rest = drop_cr s in if nat_eq (code c) b'\r' && ends_line s then rest else c ∷ rest

skip_empty_lines : String → String
skip_empty_lines [] = []
skip_empty_lines (c ∷ s) =
    let rest = skip_empty_lines s in if nat_eq (code c) b'\n' then rest else c ∷ s

unfoldable pub csv_read : String → Result (List String)
unfolding fields drop_cr ends_line skip_empty_lines
csv_read s =
    let line = skip_empty_lines (drop_cr s) in
    if line == "" then err eof_error else fields start line

-- No quote and no line break: then a record's fields are what stands between the commas.
pub record IsPlain (s : String) : Type 0 where
  pub no_quote : Lacks b'"' s
  pub no_newline : Lacks b'\n' s
  pub no_return : Lacks b'\r' s

fields-plain :
    (m : Mode) (s : String)
    → (m ≡ start) ⊎ (m ≡ bare)
    → Lacks b'"' s
    → Lacks b'\n' s
    → fields m s ≡ ok (split b',' s)
unfolding fields split has_code
fields-plain start [] h q n = refl
fields-plain bare [] h q n = refl
fields-plain quoted [] h q n = ground arith
fields-plain closing [] h q n = ground arith
fields-plain start (c ∷ s) h q n =
    ground (arith, fields-plain start s (inl refl), fields-plain bare s (inr refl))
fields-plain bare (c ∷ s) h q n =
    ground (arith, fields-plain start s (inl refl), fields-plain bare s (inr refl))
fields-plain quoted (c ∷ s) h q n = ground arith
fields-plain closing (c ∷ s) h q n = ground arith

drop_cr-plain : (s : String) → Lacks b'\r' s → drop_cr s ≡ s
unfolding drop_cr has_code
drop_cr-plain [] h = refl
drop_cr-plain (c ∷ s) h = ground (arith, drop_cr-plain s)

skip_empty_lines-plain : (s : String) → Lacks b'\n' s → skip_empty_lines s ≡ s
unfolding skip_empty_lines has_code
skip_empty_lines-plain [] h = refl
skip_empty_lines-plain (c ∷ s) h = ground arith

pub csv_read-plain : (s : String) → IsPlain s → s ≢ "" → csv_read s ≡ ok (split b',' s)
unfolding csv_read
csv_read-plain s p ne = rw (drop_cr-plain s p.no_return) (
    rw (skip_empty_lines-plain s p.no_newline)
      (ground (arith, eq_iff s "", fields-plain start s (inl refl) p.no_quote p.no_newline)))

csv_read_test : csv_read "a,\"b,\"\"c\",d\r\ne" ≡ ok (cons "a" (cons "b,\"c" (cons "d" nil)))
unfolding csv_read split
csv_read_test = refl
