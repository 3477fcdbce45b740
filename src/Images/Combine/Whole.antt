-- ===== src/Images/Combine/Whole.antt =====
-- What `Combine` returns, from the descriptors that its sources hold.
use buildkit_cli_for_kubectl.Prelude.{
  String, ◌≡◌, refl, sym, ap, Bool, true, false, ◌||◌, List, [], ◌∷◌, ◌++◌, Result, ok, err,
  if◌then◌else◌, ◌>>=◌, arith, eq_iff, is_in, Distinct, Bool-cases, inl, inr, map_results, eq_refl,
}
use buildkit_cli_for_kubectl.Images.{Registry, Descriptor, Bytes, parse_ref}
use buildkit_cli_for_kubectl.Images.Combine.{
  Collected, add_desc, add_descs, add_source, add_sources, is_list, write_index, combine,
  combine_prepared, combine_all, prepare, Desc,
}
use buildkit_cli_for_kubectl.Images.Combine.Merge.{add_descs-Collects, Collects, digests, firsts}

is_in-append : (g : String) (xs ys : List String) → is_in g (xs ++ ys) ≡ (is_in g xs || is_in g ys)
unfolding is_in
is_in-append g [] ys = refl
is_in-append g (x ∷ xs) ys = ground (arith, is_in-append g xs ys)

firsts-seen :
    (g : String) (seen gs : List String) → is_in g seen ≡ true → is_in g (firsts seen gs) ≡ false
unfolding firsts is_in
firsts-seen g seen [] h = refl
firsts-seen g seen (x ∷ gs) h = ground (
  arith,
  eq_iff x g,
  firsts-seen g seen gs,
  firsts-seen g (seen ++ x ∷ []) gs,
  is_in-append g seen (x ∷ []),
)

seen_last : (g : String) (seen : List String) → is_in g (seen ++ g ∷ []) ≡ true
unfolding is_in
seen_last g seen = ground (arith, is_in-append g seen (g ∷ []), eq_refl g)

firsts-Distinct : (seen gs : List String) → Distinct (firsts seen gs)
unfolding firsts
firsts-Distinct seen [] = tt
firsts-Distinct seen (g ∷ gs) = elim (Bool-cases (is_in g seen)) [
  | inl old ↦ rw old (firsts-Distinct seen gs)
  | inr new ↦
      rw new
        (firsts-seen g (seen ++ g ∷ []) gs (seen_last g seen), firsts-Distinct (seen ++ g ∷ []) gs)
]

add_descs-append :
    {P : Type 0} (ds es : List (Descriptor P)) (st : Collected P)
    → add_descs (ds ++ es) st ≡ add_descs es (add_descs ds st)
unfolding add_descs
add_descs-append [] es st = refl
add_descs-append (d ∷ ds) es st = add_descs-append ds es (add_desc d st)

module _ (r : Registry) where
  open r use {Platform, unmarshal_index, ref_text}

  -- What one prepared source holds: the descriptors of a list, or itself.
  unfoldable pub held : Bytes × Desc r → Result (List (Desc r))
  held (dt, d) = if is_list d.media_type then unmarshal_index dt else ok (d ∷ [])

  unfoldable pub held_in : List (Bytes × Desc r) → Result (List (Desc r))
  unfolding held
  held_in [] = ok []
  held_in (s ∷ ss) = do ds ← held s; es ← held_in ss; ok (ds ++ es)

  add_source-held :
      (s : Bytes × Desc r) (st : Collected Platform)
      → add_source r s st ≡ (held s >>= λ ds. ok (add_descs ds st))
  unfolding add_source held add_descs
  add_source-held (dt, d) st = elim (Bool-cases (is_list d.media_type)) [
    | inl e ↦ rw e refl
    | inr e ↦ rw e refl
  ]

  add_sources-held_in :
      (ss : List (Bytes × Desc r)) (st : Collected Platform)
      → add_sources r ss st ≡ (held_in ss >>= λ ds. ok (add_descs ds st))
  unfolding add_sources held_in add_descs
  add_sources-held_in [] st = refl
  add_sources-held_in (s ∷ ss) st =
      rw (add_source-held s st) (go (λ st'. add_sources-held_in ss st') (held s))
    where
      go' :
          (ds : List (Desc r)) (m : Result (List (Desc r)))
          → (m >>= λ es. ok (add_descs es (add_descs ds st)))
            ≡ ((m >>= λ es. ok (ds ++ es)) >>= λ es. ok (add_descs es st))
      go' ds (err e) = refl
      go' ds (ok es) = ap ok (sym (add_descs-append ds es st))

      go :
          ((st' : Collected Platform)
            → add_sources r ss st' ≡ (held_in ss >>= λ es. ok (add_descs es st')))
          → (m : Result (List (Desc r)))
          → ((m >>= λ ds. ok (add_descs ds st)) >>= λ st'. add_sources r ss st')
            ≡ ((m >>= λ ds. held_in ss >>= λ es. ok (ds ++ es)) >>= λ ds. ok (add_descs ds st))
      go rest (err e) = refl
      go rest (ok ds) = rw (rest (add_descs ds st)) (go' ds (held_in ss))

  -- The case in which the code returns the bytes of the source
  unfoldable pub is_single_list : List (Bytes × Desc r) → Bool
  is_single_list ((dt, d) ∷ []) = is_list d.media_type
  is_single_list ss = false

  combine_prepared-all :
      (ss : List (Bytes × Desc r))
      → is_single_list ss ≡ false
      → combine_prepared r ss ≡ combine_all r ss
  unfolding combine_prepared is_single_list
  combine_prepared-all [] h = refl
  combine_prepared-all ((dt, d) ∷ []) h = rw h refl
  combine_prepared-all (s ∷ t ∷ ss) h = refl

  pub Merges : List (Desc r) → Result (Bytes × Desc r) → Type 0
  Merges es m =
      (ms : List (Desc r)) × (m ≡ write_index r ms) × Collects es ms × Distinct (digests ms)

  combine_all-Merges :
      (ss : List (Bytes × Desc r)) (es : List (Desc r))
      → held_in ss ≡ ok es
      → Merges es (combine_all r ss)
  unfolding combine_all Merges Collects
  combine_all-Merges ss es h =
      let start : Collected Platform = record { index = []; descs = [] } in
      let all = add_descs-Collects es in
      rw (add_sources-held_in ss start)
        (rw h ((add_descs es start).descs, refl, all, rw (all.0) (firsts-Distinct [] (digests es))))

  -- Where the reference parses, the preparations succeed, the sources are not one list alone and the lists among
  -- them decode, `Combine` writes the index of a list whose digests are those of what the sources hold, each
  -- once and in the order of its first occurrence, and whose descriptor for a digest is the merge of all
  -- those with that digest from the first to the last.
  pub combine-Merges :
      (name : String) (ds : List (Desc r)) (ref : r.Named) (ss : List (Bytes × Desc r))
      (es : List (Desc r))
      → parse_ref r name ≡ ok ref
      → map_results (prepare r (ref_text ref) name) ds ≡ ok ss
      → is_single_list ss ≡ false
      → held_in ss ≡ ok es
      → Merges es (combine r name ds)
  unfolding combine
  combine-Merges name ds ref ss es p q single h =
      rw p (rw q (rw (combine_prepared-all ss single) (combine_all-Merges ss es h)))
