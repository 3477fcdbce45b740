-- ===== src/Images/Combine/Merge.antt =====
-- The list that `Combine` writes: one descriptor for each digest, merged in the order of the sources. The
-- reference puts a descriptor where its digest stands, without the map of indices.
use mathlib.Core.List.{append-nil, append_assoc}
use buildkit_cli_for_kubectl.Prelude.{
  ℕ, zero, suc, String, ◌≡◌, refl, sym, ap, Option, none, some, List, [], ◌∷◌, ◌++◌, map, length,
  lookup, lookup-insert, if◌then◌else◌, ◌==◌, arith, eq_iff, is_in, Bool-cases, inl, inr, ◌∙◌,
}
use buildkit_cli_for_kubectl.Images.{Descriptor}
use buildkit_cli_for_kubectl.Images.Combine.{
  merge, update_at, Collected, add_at, add_desc, add_descs,
}

abbrev one_further : Option ℕ → Option ℕ
one_further none = none
one_further (some i) = some (suc i)

-- The digests of a list, each where it comes first, without those that were seen.
unfoldable pub firsts : List String → List String → List String
firsts seen [] = []
firsts seen (g ∷ gs) =
    let again = firsts seen gs in
    let new = g ∷ firsts (seen ++ g ∷ []) gs in if is_in g seen then again else new

module _ {P : Type 0} where
  position : String → List (Descriptor P) → Option ℕ
  position g [] = none
  position g (o ∷ os) =
      let rest = one_further (position g os) in if o.digest == g then some 0 else rest

  put : Descriptor P → List (Descriptor P) → List (Descriptor P)
  put d [] = d ∷ []
  put d (o ∷ os) = let rest = put d os in if o.digest == d.digest then merge o d ∷ os else o ∷ rest

  put-new :
      (d : Descriptor P) (os : List (Descriptor P))
      → position d.digest os ≡ none
      → put d os ≡ os ++ d ∷ []
  unfolding position put
  put-new d [] h = refl
  put-new d (o ∷ os) h = ground (arith, put-new d os)

  put-old :
      (d : Descriptor P) (os : List (Descriptor P)) (i : ℕ)
      → position d.digest os ≡ some i
      → put d os ≡ update_at i (λ old. merge old d) os
  unfolding position put update_at
  put-old d [] i h = absurd (cc)
  put-old d (o ∷ os) zero h = ground arith
  put-old d (o ∷ os) (suc i) h = ground (arith, put-old d os i)

  position-append :
      (g : String) (d : Descriptor P) (os : List (Descriptor P))
      → position g (os ++ d ∷ []) ≡ elim (position g os) [
        | none ↦ if d.digest == g then some (length os) else none
        | some i ↦ some i
      ]
  unfolding position
  position-append g d [] = refl
  position-append g d (o ∷ os) = ground (arith, position-append g d os)

  merge-digest : (o d : Descriptor P) → (merge o d).digest ≡ o.digest
  unfolding merge
  merge-digest o d = refl

  position-update_at :
      (g : String) (d : Descriptor P) (i : ℕ) (os : List (Descriptor P))
      → position g (update_at i (λ old. merge old d) os) ≡ position g os
  unfolding position update_at merge
  position-update_at g d i [] = refl
  position-update_at g d zero (o ∷ os) = refl
  position-update_at g d (suc i) (o ∷ os) = rw (position-update_at g d i os) refl

  put_all : List (Descriptor P) → List (Descriptor P) → List (Descriptor P)
  put_all [] os = os
  put_all (d ∷ ds) os = put_all ds (put d os)

  -- The map of the state gives each digest its index.
  Indexed : Collected P → Type 0
  Indexed st = (g : String) → lookup g st.index ≡ position g st.descs

  add_at-put :
      (d : Descriptor P) (st : Collected P) (o : Option ℕ)
      → position d.digest st.descs ≡ o
      → (add_at d st o).descs ≡ put d st.descs
  unfolding add_at
  add_at-put d st none h = sym (put-new d st.descs h)
  add_at-put d st (some i) h = sym (put-old d st.descs i h)

  add_at-Indexed :
      (d : Descriptor P) (st : Collected P) (o : Option ℕ)
      → Indexed st
      → position d.digest st.descs ≡ o
      → Indexed (add_at d st o)
  unfolding add_at Indexed
  add_at-Indexed d st none h k g =
      rw (lookup-insert d.digest g (length st.descs) st.index)
        (rw (position-append g d st.descs) (rw (h g) (ground (arith, eq_iff d.digest g))))
  add_at-Indexed d st (some i) h k g = h g ∙ sym (position-update_at g d i st.descs)

  add_desc-put :
      (d : Descriptor P) (st : Collected P) → Indexed st → (add_desc d st).descs ≡ put d st.descs
  unfolding add_desc Indexed
  add_desc-put d st h = add_at-put d st (lookup d.digest st.index) (sym (h d.digest))

  add_desc-Indexed : (d : Descriptor P) (st : Collected P) → Indexed st → Indexed (add_desc d st)
  unfolding add_desc Indexed
  add_desc-Indexed d st h = add_at-Indexed d st (lookup d.digest st.index) h (sym (h d.digest))

  add_descs-put_all :
      (ds : List (Descriptor P)) (st : Collected P)
      → Indexed st
      → ((add_descs ds st).descs ≡ put_all ds st.descs) × Indexed (add_descs ds st)
  unfolding add_descs put_all
  add_descs-put_all [] st h = (refl, h)
  add_descs-put_all (d ∷ ds) st h =
      let (same, indexed) = add_descs-put_all ds (add_desc d st) (add_desc-Indexed d st h) in
      (same ∙ ap (put_all ds) (add_desc-put d st h), indexed)

  unfoldable pub digests : List (Descriptor P) → List String
  digests ds = map Descriptor.digest ds

  digests-put :
      (d : Descriptor P) (os : List (Descriptor P))
      → digests (put d os)
        ≡ (if is_in d.digest (digests os) then digests os else digests os ++ d.digest ∷ [])
  unfolding digests put is_in merge
  digests-put d [] = refl
  digests-put d (o ∷ os) = ground (arith, digests-put d os, eq_iff o.digest d.digest)

  digests-put_all :
      (ds os : List (Descriptor P))
      → digests (put_all ds os) ≡ digests os ++ firsts (digests os) (digests ds)
  unfolding put_all firsts digests
  digests-put_all [] os = sym (append-nil (digests os))
  digests-put_all (d ∷ ds) os = elim (Bool-cases (is_in d.digest (digests os))) [
    | inl old ↦ rw (digests-put_all ds (put d os)) (rw (digests-put d os) (rw old refl))
    | inr new ↦ rw (digests-put_all ds (put d os)) (
        rw (digests-put d os) (
          rw new (
            append_assoc (digests os) (d.digest ∷ [])
              (firsts (digests os ++ d.digest ∷ []) (digests ds)))))
  ]

  unfoldable pub found_first : String → List (Descriptor P) → Option (Descriptor P)
  found_first g [] = none
  found_first g (o ∷ os) = let rest = found_first g os in if o.digest == g then some o else rest

  pub merge_onto : Option (Descriptor P) → Descriptor P → Descriptor P
  merge_onto none d = d
  merge_onto (some o) d = merge o d

  -- The descriptors with a digest, merged from the first to the last.
  unfoldable pub merged :
      String → List (Descriptor P) → Option (Descriptor P) → Option (Descriptor P)
  merged g [] found = found
  merged g (d ∷ ds) found =
      let other = merged g ds found in
      let same = merged g ds (some (merge_onto found d)) in if d.digest == g then same else other

  found_first-put :
      (g : String) (d : Descriptor P) (os : List (Descriptor P))
      → found_first g (put d os)
        ≡ (if d.digest == g then some (merge_onto (found_first g os) d) else found_first g os)
  unfolding found_first put merge_onto merge
  found_first-put g d [] = refl
  found_first-put g d (o ∷ os) = ground (
    arith,
    found_first-put g d os,
    eq_iff o.digest d.digest,
    eq_iff o.digest g,
    eq_iff d.digest g,
  )

  found_first-put_all :
      (g : String) (ds os : List (Descriptor P))
      → found_first g (put_all ds os) ≡ merged g ds (found_first g os)
  unfolding put_all merged
  found_first-put_all g [] os = refl
  found_first-put_all g (d ∷ ds) os =
      rw (found_first-put_all g ds (put d os)) (rw (found_first-put g d os) (ground arith))

  -- What the state holds after all the descriptors, from the empty one.
  unfoldable pub Collects : List (Descriptor P) → List (Descriptor P) → Type 0
  Collects es ms =
      (digests ms ≡ firsts [] (digests es)) × ((g : String) → found_first g ms ≡ merged g es none)

  pub add_descs-Collects :
      (es : List (Descriptor P))
      → Collects es (add_descs es (record { index = []; descs = [] })).descs
  unfolding Collects Indexed found_first lookup position digests
  add_descs-Collects es =
      let (same, _) = add_descs-put_all es (record { index = []; descs = [] }) (λ g. refl) in
      rw same (digests-put_all es [], λ g. found_first-put_all g es [])
