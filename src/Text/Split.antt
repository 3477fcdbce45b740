-- ===== src/Text/Split.antt =====
-- `strings.Split`, `SplitN`, `Join` and `Contains`, for a separator of one character.
use Prim.Native.Char.{Char, code}
use Prim.Native.String.{[], ◌∷◌}
use mathlib.Core.List.{[] as nil, ◌∷◌ as cons}
use text.Mathlib.TextLemmas.{nil-append, cons-append}
use buildkit_cli_for_kubectl.Prelude.{
  ℕ, String, ◌<>◌, ◌≡◌, refl, ap, ◌∙◌, Bool, true, false, ◌||◌, Option, none, some, List, nat_eq,
  if◌then◌else◌, arith, All, ◌≢◌, Bool-cases, inl, inr,
}

-- `strings.Contains(s, sep)`
unfoldable pub has_code : ℕ → String → Bool
has_code sep [] = false
has_code sep (c ∷ s) = nat_eq (code c) sep || has_code sep s

abbrev pub push_first : Char → List String → List String
push_first c nil = cons (c ∷ []) nil
push_first c (List.◌∷◌ p ps) = cons (c ∷ p) ps

-- `strings.Split(s, sep)`
unfoldable pub split : ℕ → String → List String
split sep [] = cons "" nil
split sep (c ∷ s) =
    let rest = split sep s in if nat_eq (code c) sep then cons "" rest else push_first c rest

abbrev pub push_before : Char → Option (String × String) → Option (String × String)
push_before c none = none
push_before c (some (a, b)) = some (c ∷ a, b)

-- `strings.SplitN(s, sep, 2)`: the two parts, or `none` where the result has `s` alone
unfoldable pub cut : ℕ → String → Option (String × String)
cut sep [] = none
cut sep (c ∷ s) =
    let rest = cut sep s in if nat_eq (code c) sep then some ("", s) else push_before c rest

-- `strings.Join(parts, sep)`
unfoldable pub join : String → List String → String
join sep nil = ""
join sep (List.◌∷◌ p nil) = p
join sep (List.◌∷◌ p (List.◌∷◌ q ps)) = p <> (sep <> join sep (cons q ps))

abbrev pub Lacks : ℕ → String → Type 0
Lacks sep s = has_code sep s ≡ false

pub cut-append :
    (sep : Char) (a b : String) → Lacks (code sep) a → cut (code sep) (a <> (sep ∷ b)) ≡ some (a, b)
unfolding cut has_code
cut-append sep [] b h = rw nil-append (ground arith)
cut-append sep (c ∷ a) b h = rw cons-append (ground (arith, cut-append sep a b))

pub cut-eq-none : (sep : ℕ) (s : String) → Lacks sep s → cut sep s ≡ none
unfolding cut has_code
cut-eq-none sep [] h = refl
cut-eq-none sep (c ∷ s) h = ground (arith, cut-eq-none sep s)

pub split-eq_self : (sep : ℕ) (s : String) → Lacks sep s → split sep s ≡ cons s nil
unfolding split has_code
split-eq_self sep [] h = refl
split-eq_self sep (c ∷ s) h = ground (arith, split-eq_self sep s)

split-append :
    (sep : Char) (a b : String)
    → Lacks (code sep) a
    → split (code sep) (a <> (sep ∷ b)) ≡ cons a (split (code sep) b)
unfolding split has_code
split-append sep [] b h = rw nil-append (ground arith)
split-append sep (c ∷ a) b h = rw cons-append (ground (arith, split-append sep a b))

-- Splitting at a character undoes joining by it, where no part holds it.
pub split-join :
    (sep : Char) (ps : List String)
    → ps ≢ nil
    → All (Lacks (code sep)) ps
    → split (code sep) (join (sep ∷ []) ps) ≡ ps
unfolding join
split-join sep nil ne h = absurd (ne refl)
split-join sep (List.◌∷◌ p nil) ne h = split-eq_self (code sep) p h.0
split-join sep (List.◌∷◌ p (List.◌∷◌ q ps)) ne h =
    let rest = join (sep ∷ []) (cons q ps) in
    let joined : p <> ((sep ∷ []) <> rest) ≡ p <> (sep ∷ rest) =
      ap (◌<>◌ p) (cons-append sep [] rest ∙ ap (◌∷◌ sep) (nil-append rest)) in
    rw joined (split-append sep p rest h.0 ∙ ap (cons p) (split-join sep (cons q ps) (cc) h.1))

-- No part of a split holds the separator.
pub split-Lacks : (sep : ℕ) (s : String) → All (Lacks sep) (split sep s)
unfolding split has_code
split-Lacks sep [] = (refl, tt)
split-Lacks sep (c ∷ s) = elim (Bool-cases (nat_eq (code c) sep)) [
  | inl here ↦ rw here (refl, split-Lacks sep s)
  | inr other ↦ rw other (push (split sep s) other (split-Lacks sep s))
]
  where
    push :
        (ps : List String)
        → nat_eq (code c) sep ≡ false
        → All (Lacks sep) ps
        → All (Lacks sep) (push_first c ps)
    push nil e h = (rw e, tt)
    push (List.◌∷◌ p ps) e h = (rw e h.0, h.1)

pub split-cons :
    (sep : ℕ) (s : String) → (p : String) × (ps : List String) × (split sep s ≡ cons p ps)
unfolding split
split-cons sep [] = ("", nil, refl)
split-cons sep (c ∷ s) =
    let (p, ps, e) = split-cons sep s in
    elim (Bool-cases (nat_eq (code c) sep)) [
      | inl here ↦ ("", split sep s, rw here)
      | inr other ↦ (c ∷ p, ps, rw (other, e))
    ]

-- A text that holds the separator has at least two parts.
pub split_many :
    (sep : ℕ) (s : String)
    → has_code sep s ≡ true
    → (p : String) × (q : String) × (ps : List String) × (split sep s ≡ cons p (cons q ps))
unfolding split has_code
split_many sep [] h = absurd (ground arith)
split_many sep (c ∷ s) h = elim (Bool-cases (nat_eq (code c) sep)) [
  | inl here ↦ let (p, ps, e) = split-cons sep s in ("", p, ps, rw (here, e))
  | inr other ↦
      let (p, q, ps, e) = split_many sep s (rw other at h) in (c ∷ p, q, ps, rw (other, e))
]
