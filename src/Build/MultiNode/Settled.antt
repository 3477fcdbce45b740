-- ===== src/Build/MultiNode/Settled.antt =====
-- The passes of `Build` over the exports of a target on several drivers: all but the first change nothing.
use buildkit_cli_for_kubectl.Prelude.{
  ℕ, zero, suc, String, ◌≡◌, refl, ap, ◌∙◌, false, ◌||◌, ◌⊎◌, inl, inr, List, [], ◌∷◌, Result, ok,
  Ensures, Ensures-bind, Ensures-rest, Ensures-ok, Result-cases, Bool-cases, ◌==◌, arith, lookup_or,
}
use buildkit_cli_for_kubectl.Build.Outputs.{ExportEntry}
use buildkit_cli_for_kubectl.Build.MultiNode.{
  mark_export, by_digest, is_first_push, mark_exports, mark_nodes, to_repo_only,
}

-- The names to push stay once there are some.
Later : String → String → Type 0
Later names m = (m ≡ names) ⊎ ((m == "") ≡ false)

module _ (repository : String → Result String) where
  -- The export passes once more, after this and later exports.
  Passes : String × ExportEntry → Type 0
  Passes (n, f) = (m : String) → Later n m → mark_export repository m f ≡ ok (m, f)

  Marked : String → String × ExportEntry → Type 0
  Marked names r = Later names r.0 × Passes r

  named-passes :
      (m : String) (e : ExportEntry)
      → (e.kind == "oci" || e.kind == "tar") ≡ false
      → (m == "") ≡ false
      → mark_export repository m e ≡ ok (m, e)
  unfolding mark_export is_first_push
  named-passes m e node h = rw node (rw h (ground arith))

  by_digest-Marked :
      (names : String) (e : ExportEntry) (repos : String)
      → (e.kind == "oci" || e.kind == "tar") ≡ false
      → Ensures (Marked names) (by_digest repository e repos)
  unfolding by_digest Marked Passes Later
  by_digest-Marked names e repos node = elim (Bool-cases (repos == "")) [
    | inl empty ↦ rw empty tt
    | inr named ↦ rw named (
        Ensures-rest (Marked names) (to_repo_only repository repos) _ (λ text. (
          inr named,
          λ m later.
              named-passes m _ node
                (elim later [ inl same ↦ ap (λ n. n == "") same ∙ named | inr other ↦ other ]),
        )))
  ]

  unmarked-Passes :
      (names : String) (e : ExportEntry)
      → (e.kind == "oci" || e.kind == "tar") ≡ false
      → is_first_push names e ≡ false
      → Passes (names, e)
  unfolding mark_export Passes Later
  unmarked-Passes names e node other m later = elim later [
    | inl same ↦ rw node (rw same (rw other refl))
    | inr named ↦ named-passes m e node named
  ]

  mark_export-Marked :
      (names : String) (e : ExportEntry) → Ensures (Marked names) (mark_export repository names e)
  unfolding mark_export Marked Later
  mark_export-Marked names e = elim (Bool-cases (e.kind == "oci" || e.kind == "tar")) [
    | inl stream ↦ rw stream tt
    | inr node ↦ elim (Bool-cases (is_first_push names e)) [
      | inl push ↦ rw node (rw push (by_digest-Marked names e (lookup_or "" "name" e.attrs) node))
      | inr other ↦ rw node (rw other (inl refl, unmarked-Passes names e node other))
    ]
  ]

  Later-trans : (a b c : String) → Later a b → Later b c → Later a c
  unfolding Later
  Later-trans a b c first second = elim second [ inl same ↦ rw same first | inr named ↦ inr named ]

  -- One more pass leaves the names and the exports as they are.
  Settled : String → String × List ExportEntry → Type 0
  Settled names (m, fs) = Later names m × (mark_exports repository m fs ≡ ok (m, fs))

  cons-Settled :
      (names n m : String) (f : ExportEntry) (fs : List ExportEntry)
      → Marked names (n, f)
      → Settled n (m, fs)
      → Settled names (m, f ∷ fs)
  unfolding Marked Settled Passes mark_exports
  cons-Settled names n m f fs (later, passes) (then_later, settled) =
      (Later-trans names n m later then_later, rw (passes m then_later) (rw settled refl))

  mark_exports-Settled :
      (names : String) (es : List ExportEntry)
      → Ensures (Settled names) (mark_exports repository names es)
  unfolding mark_exports
  mark_exports-Settled names [] = unfold Settled Later in (inl refl, refl)
  mark_exports-Settled names (e ∷ es) =
      Ensures-bind (Marked names) (Settled names) (mark_export repository names e) _
        (mark_export-Marked names e)
        (λ (n, f) marked.
          Ensures-bind (Settled n) (Settled names) (mark_exports repository n es) _
            (mark_exports-Settled n es)
            (λ (m, fs) settled. cons-Settled names n m f fs marked settled))

  rest-Settled :
      (count : ℕ) (m : String) (fs : List ExportEntry)
      → mark_exports repository m fs ≡ ok (m, fs)
      → mark_nodes repository count m fs ≡ ok (m, fs)
  unfolding mark_nodes
  rest-Settled zero m fs settled = refl
  rest-Settled (suc count) m fs settled = rw settled (rest-Settled count m fs settled)

  -- The exports of a target that is built on several drivers come out of the passes for all of them, or are
  -- refused, as in the pass for the first driver alone.
  pub mark_nodes-mark_exports :
      (count : ℕ) (names : String) (es : List ExportEntry)
      → mark_nodes repository (suc count) names es ≡ mark_exports repository names es
  unfolding mark_nodes Settled
  mark_nodes-mark_exports count names es = elim (Result-cases (mark_exports repository names es)) [
    | inl ((m, fs), marks) ↦ rw marks (
        rest-Settled count m fs
          (Ensures-ok (Settled names) _ (mark_exports-Settled names es) marks).1)
    | inr (e, fails) ↦ rw fails refl
  ]
