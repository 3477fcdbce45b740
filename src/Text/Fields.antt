-- ===== src/Text/Fields.antt =====
-- Texts of the form `key=value`, and records of plain fields.
use Prim.Native.String.{[], ◌∷◌}
use mathlib.Core.List.{[] as nil, ◌∷◌ as cons}
use text.Mathlib.TextLemmas.{nil-append, cons-append, append-eq-nil_iff}
use buildkit_cli_for_kubectl.Prelude.{
  ℕ, String, ◌<>◌, ◌≡◌, ◌≢◌, refl, ap, ◌∙◌, true, ◌||◌, some, eq_iff, List, arith, ok, All,
}
use buildkit_cli_for_kubectl.Text.Split.{has_code, cut, join, Lacks, cut-append, split-join}
use buildkit_cli_for_kubectl.Text.Csv.{csv_read, IsPlain, csv_read-plain}

abbrev pub key_value : String → String → String
key_value k v = k <> ("=" <> v)

pub cut-key_value : (k v : String) → Lacks b'=' k → cut b'=' (key_value k v) ≡ some (k, v)
cut-key_value k v h = rw (cons-append "=" "" v) (rw nil-append (cut-append "=" k v h))

pub has_code-append :
    (sep : ℕ) (a b : String) → has_code sep (a <> b) ≡ (has_code sep a || has_code sep b)
unfolding has_code
has_code-append sep [] b = rw nil-append
has_code-append sep (c ∷ a) b = rw cons-append (ground (arith, has_code-append sep a b))

has_code-join : (c : ℕ) (ps : List String) → Lacks c "," → All (Lacks c) ps → Lacks c (join "," ps)
unfolding join
has_code-join c nil s h = unfold has_code in refl
has_code-join c (List.◌∷◌ p nil) s h = h.0
has_code-join c (List.◌∷◌ p (List.◌∷◌ q ps)) s h =
    let rest = join "," (cons q ps) in
    ground (
      arith,
      has_code-append c p ("," <> rest),
      has_code-append c "," rest,
      has_code-join c (cons q ps) s h.1,
    )

-- A field that the csv reader and the split at `=` give back as it is.
pub record IsField (s : String) : Type 0 where
  pub plain : IsPlain s
  pub no_comma : Lacks b',' s

All-Lacks :
    (c : ℕ) (ps : List String)
    → ((s : String) → IsField s → Lacks c s)
    → All IsField ps
    → All (Lacks c) ps
All-Lacks c nil f h = tt
All-Lacks c (List.◌∷◌ p ps) f h = (f p h.0, All-Lacks c ps f h.1)

pub csv_read-join :
    (p : String) (ps : List String)
    → p ≢ ""
    → All IsField (cons p ps)
    → csv_read (join "," (cons p ps)) ≡ ok (cons p ps)
csv_read-join p ps ne h =
    let s = join "," (cons p ps) in
    let lacks = λ (c : ℕ) (sep : Lacks c ",") (f : (s : String) → IsField s → Lacks c s).
      has_code-join c (cons p ps) sep (All-Lacks c (cons p ps) f h) in
    let plain : IsPlain s = record {
      no_quote = lacks b'"' (unfold has_code in refl) (λ t f. f.plain.no_quote);
      no_newline = lacks b'\n' (unfold has_code in refl) (λ t f. f.plain.no_newline);
      no_return = lacks b'\r' (unfold has_code in refl) (λ t f. f.plain.no_return);
    } in
    csv_read-plain s plain (nonempty ps)
    ∙ ap ok (split-join "," (cons p ps) (cc) (All-Lacks b',' (cons p ps) (λ t f. f.no_comma) h))
  where
    nonempty : (qs : List String) → join "," (cons p qs) ≢ ""
    nonempty nil e = unfold join in ne e
    nonempty (List.◌∷◌ q qs) e = unfold join in ne ((append-eq-nil_iff.0 e).0)

pub key_value-ne-nil : (k v : String) → key_value k v ≢ ""
key_value-ne-nil k v e =
    ground (arith, eq_iff "=" "", (append-eq-nil_iff.0 ((append-eq-nil_iff.0 e).1)).0)

pub has_code-key_value : (k v : String) → has_code b'=' (key_value k v) ≡ true
has_code-key_value k v =
    ground (arith, has_code-append b'=' k ("=" <> v), has_code-append b'=' "=" v, has_equals)
  where
    has_equals : has_code b'=' "=" ≡ true
    has_equals = unfold has_code in refl
