-- ===== src/Platform/Parsing.antt =====
-- `Parse` calls itself on the parts of a text with commas, and no deeper.
use mathlib.Core.List.{flatten}
use buildkit_cli_for_kubectl.Prelude.{
  ℕ, suc, String, ◌≡◌, refl, List, [], ◌∷◌, ◌++◌, map, Result, ok, ◌>>=◌, arith, All, map_results,
  Result-cases, Bool-cases, inl, inr,
}
use buildkit_cli_for_kubectl.Text.Split.{
  split, Lacks, split-eq_self, split-Lacks, has_code, split_many,
}
use buildkit_cli_for_kubectl.Platform.{Platforms, parse_normal, parse_parts, parse_each, parse_fuel}

module _ (p : Platforms) where
  open p use {Platform}

  map_results-append :
      (xs ys : List String)
      → map_results (parse_normal p) (xs ++ ys) ≡ (
          map_results (parse_normal p) xs >>= λ a.
          map_results (parse_normal p) ys >>= λ b. ok (a ++ b))
  map_results-append [] ys = elim (Result-cases (map_results (parse_normal p) ys)) [
    | inl (b, e) ↦ rw e
    | inr (x, e) ↦ rw e
  ]
  map_results-append (x ∷ xs) ys = ground (arith, map_results-append xs ys)

  -- Texts without a comma are read one by one, at any fuel.
  parse_each-plain :
      (nested : List String → Result (List Platform)) (texts : List String)
      → All (Lacks b',') texts
      → parse_each p nested texts ≡ map_results (parse_normal p) texts
  parse_each-plain nested [] h = refl
  parse_each-plain nested (text ∷ texts) h =
      rw (split-eq_self b',' text h.0) (rw (parse_each-plain nested texts h.1) (ground arith))

  parse_parts_lem :
      (fuel : ℕ) (text : String)
      → parse_parts p (parse_fuel p (suc fuel)) text (split b',' text)
        ≡ map_results (parse_normal p) (split b',' text)
  unfolding parse_fuel
  parse_parts_lem fuel text = elim (Bool-cases (has_code b',' text)) [
    | inl many ↦
        let (a, b, parts, e) = split_many b',' text many in
        let plain : All (Lacks b',') (a ∷ b ∷ parts) = rw e at (split-Lacks b',' text) in
        rw e (parse_each-plain (parse_fuel p fuel) (a ∷ b ∷ parts) plain)
    | inr one ↦ rw (split-eq_self b',' text one) refl
  ]

  parse_each_lem :
      (fuel : ℕ) (texts : List String)
      → parse_each p (parse_fuel p (suc fuel)) texts
        ≡ map_results (parse_normal p) (flatten (map (split b',') texts))
  unfolding flatten
  parse_each_lem fuel [] = refl
  parse_each_lem fuel (text ∷ texts) = rw (parse_parts_lem fuel text) (
      rw (parse_each_lem fuel texts)
        (rw (map_results-append (split b',' text) (flatten (map (split b',') texts))) refl))

  -- At every fuel from two on, `Parse` reads the comma-separated parts of all the texts in order, one
  -- platform each, and stops at the first part that does not parse: its calls of itself go one level
  -- deep and never run out of fuel.
  pub parse_fuel_lem :
      (fuel : ℕ) (texts : List String)
      → parse_fuel p (suc (suc fuel)) texts
        ≡ map_results (parse_normal p) (flatten (map (split b',') texts))
  unfolding parse_fuel
  parse_fuel_lem fuel texts = parse_each_lem fuel texts
