-- ===== src/Platform/Laws.antt =====
-- What the platform utilities compute.
use mathlib.Core.List.{flatten, map-append}
use buildkit_cli_for_kubectl.Prelude.{
  String, ◌<>◌, ◌≡◌, refl, ap, Bool, true, false, ◌||◌, List, [], ◌∷◌, ◌++◌, map, if◌then◌else◌,
  arith, eq_iff, eq_refl, All, Bool-cases, inl, inr, is_in, Distinct,
}
use buildkit_cli_for_kubectl.Platform.{
  Platforms, dedupe_from, dedupe, star_first, format_group, format_groups, format_in_groups,
}

module _ (p : Platforms) where
  open p use {Platform, normalize, format}

  abbrev pub key : Platform → String
  key q = format (normalize q)

  -- The keys of what `dedupe` returns: those of the input that were not seen.
  is_in-dedupe_from :
      (k : String) (seen : List String) (qs : List Platform)
      → (is_in k seen || is_in k (map format (dedupe_from p seen qs)))
        ≡ (is_in k seen || is_in k (map key qs))
  unfolding dedupe_from is_in
  is_in-dedupe_from k seen [] = refl
  is_in-dedupe_from k seen (q ∷ qs) =
      ground (
        arith,
        eq_iff (key q) k,
        is_in-dedupe_from k seen qs,
        is_in-dedupe_from k (key q ∷ seen) qs,
      )

  not_seen-dedupe_from :
      (k : String) (seen : List String) (qs : List Platform)
      → is_in k seen ≡ true
      → is_in k (map format (dedupe_from p seen qs)) ≡ false
  unfolding dedupe_from is_in
  not_seen-dedupe_from k seen [] h = refl
  not_seen-dedupe_from k seen (q ∷ qs) h = ground (
    arith,
    eq_iff (key q) k,
    not_seen-dedupe_from k seen qs,
    not_seen-dedupe_from k (key q ∷ seen) qs,
  )

  seen_head : (k : String) (seen : List String) → is_in k (k ∷ seen) ≡ true
  unfolding is_in
  seen_head k seen = rw (eq_refl k)

  dedupe_from-Distinct :
      (seen : List String) (qs : List Platform) → Distinct (map format (dedupe_from p seen qs))
  unfolding dedupe_from
  dedupe_from-Distinct seen [] = tt
  dedupe_from-Distinct seen (q ∷ qs) = elim (Bool-cases (is_in (key q) seen)) [
    | inl old ↦ rw old (dedupe_from-Distinct seen qs)
    | inr new ↦ rw new (
      not_seen-dedupe_from (key q) (key q ∷ seen) qs (seen_head (key q) seen),
      dedupe_from-Distinct (key q ∷ seen) qs,
    )
  ]

  -- In what `Dedupe` returns no two platforms have the same format, and a format stands there exactly
  -- when a platform of the input has it, normalised.
  pub dedupe_lem :
      (qs : List Platform)
      → Distinct (map format (dedupe p qs))
        × ((k : String) → is_in k (map format (dedupe p qs)) ≡ is_in k (map key qs))
  unfolding dedupe is_in
  dedupe_lem qs = (dedupe_from-Distinct [] qs, λ k. is_in-dedupe_from k [] qs)

  -- Normalised platforms with distinct formats, none of them seen, are all kept.
  dedupe_from_self :
      (seen : List String) (ns : List Platform)
      → Distinct (map format ns)
      → All (λ n. normalize n ≡ n) ns
      → All (λ n. is_in (format n) seen ≡ false) ns
      → dedupe_from p seen ns ≡ ns
  unfolding dedupe_from
  dedupe_from_self seen [] d s u = refl
  dedupe_from_self seen (n ∷ ns) d s u =
      rw s.0 (rw u.0 (ap (◌∷◌ n) (dedupe_from_self (format n ∷ seen) ns d.1 s.1 (grow ns d.0 u.1))))
    where
      grow :
          (ms : List Platform)
          → is_in (format n) (map format ms) ≡ false
          → All (λ m. is_in (format m) seen ≡ false) ms
          → All (λ m. is_in (format m) (format n ∷ seen) ≡ false) ms
      grow [] e v = tt
      grow (m ∷ ms) e v = (
        unfold is_in in
            ground (arith, v.0, e, eq_iff (format n) (format m), eq_iff (format m) (format n)),
        grow ms (unfold is_in in ground (arith, e)) v.1,
      )

  dedupe_from-normal :
      ((q : Platform) → normalize (normalize q) ≡ normalize q)
      → (seen : List String) (qs : List Platform)
      → All (λ n. normalize n ≡ n) (dedupe_from p seen qs)
  unfolding dedupe_from
  dedupe_from-normal idem seen [] = tt
  dedupe_from-normal idem seen (q ∷ qs) = elim (Bool-cases (is_in (key q) seen)) [
    | inl old ↦ rw old (dedupe_from-normal idem seen qs)
    | inr new ↦ rw new (idem q, dedupe_from-normal idem (key q ∷ seen) qs)
  ]

  none_seen : (ns : List Platform) → All (λ n. is_in (format n) [] ≡ false) ns
  unfolding is_in
  none_seen [] = tt
  none_seen (n ∷ ns) = (refl, none_seen ns)

  -- A second `Dedupe` changes nothing, where normalising twice is normalising once.
  pub dedupe_idem :
      ((q : Platform) → normalize (normalize q) ≡ normalize q)
      → (qs : List Platform) → dedupe p (dedupe p qs) ≡ dedupe p qs
  unfolding dedupe
  dedupe_idem idem qs =
      dedupe_from_self [] (dedupe_from p [] qs) (dedupe_from-Distinct [] qs)
        (dedupe_from-normal idem [] qs) (none_seen _)

  abbrev pub starred : Platform → String
  starred n = format n <> "*"

  -- The keys seen behind a list.
  pub seen_after : List String → List Platform → List String
  seen_after seen [] = seen
  seen_after seen (q ∷ qs) =
      let again = seen_after seen qs in
      let more = seen_after (key q ∷ seen) qs in if is_in (key q) seen then again else more

  format_group_lem :
      (star : Bool) (seen : List String) (qs : List Platform)
      → format_group p star seen qs
        ≡ (map (λ n. star_first p star (format n)) (dedupe_from p seen qs), seen_after seen qs)
  unfolding format_group dedupe_from seen_after
  format_group_lem star seen [] = refl
  format_group_lem star seen (q ∷ qs) = elim (Bool-cases (is_in (key q) seen)) [
    | inl old ↦ rw old (format_group_lem star seen qs)
    | inr new ↦ rw new (rw (format_group_lem star (key q ∷ seen) qs) refl)
  ]

  dedupe_from-append :
      (seen : List String) (qs rs : List Platform)
      → dedupe_from p seen (qs ++ rs)
        ≡ dedupe_from p seen qs ++ dedupe_from p (seen_after seen qs) rs
  unfolding dedupe_from seen_after
  dedupe_from-append seen [] rs = refl
  dedupe_from-append seen (q ∷ qs) rs = elim (Bool-cases (is_in (key q) seen)) [
    | inl old ↦ rw old (dedupe_from-append seen qs rs)
    | inr new ↦ rw new (ap (◌∷◌ (normalize q)) (dedupe_from-append (key q ∷ seen) qs rs))
  ]

  format_groups-rest :
      (seen : List String) (gg : List (List Platform))
      → format_groups p false seen gg ≡ map format (dedupe_from p seen (flatten gg))
  unfolding format_groups flatten
  format_groups-rest seen [] = unfold dedupe_from in refl
  format_groups-rest seen (g ∷ gg) = rw (format_group_lem false seen g) (
      rw (dedupe_from-append seen g (flatten gg))
        (rw map-append (rw (format_groups-rest (seen_after seen g) gg))))

  -- The first group's platforms come first, without repeats and each with a star; behind them, without
  -- a star, those of the other groups that no platform before them repeats.
  pub format_in_groups_lem :
      (g : List Platform) (gg : List (List Platform))
      → format_in_groups p (g ∷ gg)
        ≡ map starred (dedupe p g) ++ map format (dedupe_from p (seen_after [] g) (flatten gg))
  unfolding format_in_groups dedupe
  format_in_groups_lem g gg =
      rw (format_group_lem true [] g) (rw (format_groups-rest (seen_after [] g) gg))
