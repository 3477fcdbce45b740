-- ===== src/Platform.antt =====
-- pkg/platformutil/parse.go. The platform type and its operations are containerd's: the record
-- `Platforms` stands for them.
pub mod Laws
pub mod Parsing
use buildkit_cli_for_kubectl.Prelude.{
  ℕ, zero, suc, String, ◌<>◌, Bool, true, false, ◌||◌, List, [], ◌∷◌, ◌++◌, map, Result, ok, err,
  errorf, ◌>>=◌, if◌then◌else◌, is_in,
}
use buildkit_cli_for_kubectl.Text.Split.{split}
use buildkit_cli_for_kubectl.Text.Case.{equal_fold}

pub record Platforms : Type 1 where
  pub Platform : Type 0
  pub normalize : Platform → Platform
  pub format : Platform → String
  pub parse_spec : String → Result Platform
  pub default_spec : Platform

module _ (p : Platforms) where
  open p use {Platform, normalize, format, parse_spec, default_spec}

  -- `parse`
  unfoldable pub parse_one : String → Result Platform
  parse_one text = if equal_fold text "local" then ok default_spec else parse_spec text

  unfoldable pub parse_normal : String → Result Platform
  unfolding parse_one
  parse_normal text = do q ← parse_one text; ok (normalize q)

  -- The body of `Parse`'s loop, on the text and its parts; `nested` is the call of `Parse` itself.
  abbrev pub parse_parts :
      (List String → Result (List Platform)) → String → List String → Result (List Platform)
  parse_parts nested text (a ∷ b ∷ parts) = nested (a ∷ b ∷ parts)
  parse_parts nested text _ = do q ← parse_normal text; ok (q ∷ [])

  abbrev pub parse_each :
      (List String → Result (List Platform)) → List String → Result (List Platform)
  parse_each nested [] = ok []
  parse_each nested (text ∷ texts) = do
    front ← parse_parts nested text (split b',' text)
    back ← parse_each nested texts
    ok (front ++ back)

  -- `Parse`, whose calls of itself are as deep as the fuel.
  pub parse_fuel : ℕ → List String → Result (List Platform)
  parse_fuel zero texts = err (errorf "out of fuel" [])
  parse_fuel (suc fuel) texts = parse_each (parse_fuel fuel) texts

  unfoldable pub parse : List String → Result (List Platform)
  unfolding parse_fuel
  parse texts = parse_fuel 2 texts

  -- The loop of `Dedupe` from the keys in `m`.
  pub dedupe_from : List String → List Platform → List Platform
  dedupe_from seen [] = []
  dedupe_from seen (q ∷ qs) =
      let n = normalize q in
      let again = dedupe_from seen qs in
      let new = n ∷ dedupe_from (format n ∷ seen) qs in if is_in (format n) seen then again else new

  unfoldable pub dedupe : List Platform → List Platform
  dedupe qs = dedupe_from [] qs

  -- One group of `FormatInGroups`: the lines, and the keys in `m` behind it. `star` is `i == 0`.
  abbrev pub star_first : Bool → String → String
  star_first star v = if star then v <> "*" else v

  pub format_group : Bool → List String → List Platform → List String × List String
  format_group star seen [] = ([], seen)
  format_group star seen (q ∷ qs) =
      let n = normalize q in
      let again = format_group star seen qs in
      let more = format_group star (format n ∷ seen) qs in
      let new : List String × List String = (star_first star (format n) ∷ more.0, more.1) in
      if is_in (format n) seen then again else new

  pub format_groups : Bool → List String → List (List Platform) → List String
  unfolding format_group
  format_groups star seen [] = []
  format_groups star seen (g ∷ gg) =
      let (lines, seen') = format_group star seen g in lines ++ format_groups false seen' gg

  unfoldable pub format_in_groups : List (List Platform) → List String
  unfolding format_groups
  format_in_groups gg = format_groups true [] gg

  unfoldable pub format_all : List Platform → List String
  format_all qs = map format qs
