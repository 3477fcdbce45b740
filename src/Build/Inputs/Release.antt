-- ===== src/Build/Inputs/Release.antt =====
-- What `LoadInputs` leaves behind.
use buildkit_cli_for_kubectl.Prelude.{
  String, ◌<>◌, ◌≡◌, refl, ap, subst, ◌∙◌, Bool, false, not, List, [], ◌∷◌, ◌++◌, Result, ok, err,
  Result-cases, Bool-cases, inl, inr, ◌==◌, keep, is_in, eq_refl, arith,
}
use buildkit_cli_for_kubectl.Prelude.Io.{Io-cases}
use buildkit_cli_for_kubectl.Build.Inputs.{
  Host, BuildInputs, Target, World, Found, is_archive, made_dir, make_temp, remove_all,
  create_temp_dockerfile, empty_dir, stdin_dockerfile, stdin_archive, from_header, from_stdin,
  from_dir, from_remote, find_context, store_reader, store_dockerfile, load_inputs, release,
}

keep-keep : (p q : String → Bool) (xs : List String) → keep p (keep q xs) ≡ keep q (keep p xs)
keep-keep p q [] = refl
keep-keep p q (x ∷ xs) = elim (Bool-cases (p x)) [
  | inl a ↦ elim (Bool-cases (q x)) [
    | inl b ↦ rw a (rw b (rw a (ap (◌∷◌ x) (keep-keep p q xs))))
    | inr b ↦ rw a (rw b (keep-keep p q xs))
  ]
  | inr a ↦ elim (Bool-cases (q x)) [
    | inl b ↦ rw a (rw b (rw a (keep-keep p q xs)))
    | inr b ↦ rw a (rw b (keep-keep p q xs))
  ]
]

remove_all_self : (d : String) (w : World) → is_in d w ≡ false → remove_all d w ≡ w
unfolding remove_all is_in
remove_all_self d [] h = refl
remove_all_self d (x ∷ w) h = ground (arith, remove_all_self d w)

remove_all-new : (d : String) (w : World) → is_in d w ≡ false → remove_all d (d ∷ w) ≡ w
unfolding remove_all
remove_all-new d w h = rw (eq_refl d) (unfold remove_all in remove_all_self d w h)

remove_all-release :
    (d : String) (ds : List String) (w : World)
    → remove_all d (release ds w) ≡ release ds (remove_all d w)
unfolding release remove_all
remove_all-release d [] w = refl
remove_all-release d (e ∷ ds) w =
    remove_all-release d ds (remove_all e w)
    ∙ ap (release ds) (keep-keep (λ x. not (x == d)) (λ x. not (x == e)) w)

release-append :
    (ds : List String) (d : String) (w : World)
    → release (ds ++ d ∷ []) w ≡ remove_all d (release ds w)
unfolding release
release-append [] d w = refl
release-append (e ∷ ds) d w = release-append ds d (remove_all e w)

release-last :
    (ds : List String) (d : String) (w : World)
    → is_in d w ≡ false
    → release (ds ++ d ∷ []) (d ∷ w) ≡ release ds w
release-last ds d w h =
    release-append ds d (d ∷ w)
    ∙ (remove_all-release d ds (d ∷ w) ∙ ap (release ds) (remove_all-new d w h))

-- The directories to remove are those that were made.
abbrev Restores : World → Result Found × World → Type 0
Restores w (ok found, v) = release found.to_remove v ≡ w
Restores w (err e, v) = Unit

abbrev pub RestoresInputs : World → Result (Target × List String) × World → Type 0
RestoresInputs w (ok (t, ds), v) = release ds v ≡ w
RestoresInputs w (err e, v) = Unit

module _ (host : Host)
    (fresh : (pattern d : String) (w : World) → host.temp_dir pattern w ≡ ok d → is_in d w ≡ false)
    (w : World) (no_empty : is_in "" w ≡ false) where
  stdin_dockerfile-Restores :
      (inp : BuildInputs) (t : Target) → Restores w (stdin_dockerfile host inp t w)
  unfolding stdin_dockerfile empty_dir make_temp made_dir release
  stdin_dockerfile-Restores inp t = elim (Bool-cases (inp.dockerfile_path == "")) [
    | inl e ↦ rw e (elim (Result-cases (host.temp_dir "empty-dir" w)) [
      | inl (d, h) ↦ rw h (remove_all-new d w (fresh "empty-dir" d w h))
      | inr (x, h) ↦ rw h (remove_all_self "" w no_empty)
    ])
    | inr n ↦ rw n tt
  ]

  find_context-Restores : (inp : BuildInputs) (t : Target) → Restores w (find_context host inp t w)
  unfolding find_context from_stdin from_header stdin_archive from_dir from_remote release
      is_archive
  find_context-Restores inp t = elim (Bool-cases (inp.context_path == "-")) [
    | inl e ↦ rw e (elim (Bool-cases (inp.dockerfile_path == "-")) [
      | inl a ↦ rw a tt
      | inr a ↦ rw a (elim (Result-cases host.peek) [
        | inl (magic, h) ↦ rw h (elim (Bool-cases (is_archive host magic)) [
          | inl y ↦ rw y refl
          | inr y ↦ rw y (stdin_dockerfile-Restores inp t)
        ])
        | inr (x, h) ↦ rw h tt
      ])
    ])
    | inr n ↦ rw n (elim (Bool-cases (host.is_local_dir inp.context_path)) [
      | inl e ↦ rw e (local inp t)
      | inr m ↦ rw m (elim (Bool-cases (host.is_remote inp.context_path)) [
        | inl e ↦ rw e (remote inp t)
        | inr k ↦ rw k tt
      ])
    ])
  ]
    where
      local : (inp : BuildInputs) (t : Target) → release (from_dir host inp t).to_remove w ≡ w
      local inp t = ground arith

      remote : (inp : BuildInputs) (t : Target) → Restores w (from_remote host inp t w)
      remote inp t = elim (Bool-cases (inp.dockerfile_path == "-")) [
        | inl a ↦ rw a tt
        | inr a ↦ rw a refl
      ]

  store_dockerfile-Restores :
      (found : Found) (v : World)
      → release found.to_remove v ≡ w
      → Restores w (store_dockerfile host found v)
  unfolding store_dockerfile store_reader create_temp_dockerfile make_temp made_dir
  store_dockerfile-Restores found v h = elim (Bool-cases found.reader) [
    | inr n ↦ rw n h
    | inl e ↦ rw e (elim (Result-cases (host.temp_dir "dockerfile" v)) [
      | inr (x, k) ↦ rw k tt
      | inl (d, k) ↦ rw k (elim (Result-cases (host.create_file (d <> "/Dockerfile"))) [
        | inr (x, c) ↦ rw c tt
        | inl (u, c) ↦ rw c (elim (Result-cases host.copy_reader) [
          | inr (x, r) ↦ rw r tt
          | inl (u', r) ↦ rw r (release-last found.to_remove d v (fresh "dockerfile" d v k) ∙ h)
        ])
      ])
    ])
  ]

  -- Where `LoadInputs` succeeds, what it returns as `release` removes every temporary directory that it
  -- made and nothing else. New temporary directories do not have the name of one that exists, and no
  -- directory that existed before has the empty name.
  pub load_inputs-release :
      (inp : BuildInputs) (t : Target) → RestoresInputs w (load_inputs host inp t w)
  unfolding load_inputs
  load_inputs-release inp t = elim (Bool-cases (inp.context_path == "")) [
    | inl e ↦ rw e tt
    | inr n ↦ rw n (
        Io-cases (RestoresInputs w) (find_context host inp t) _ w
          (λ found v h.
            Io-cases (RestoresInputs w) (store_dockerfile host found) _ v
              (λ stored v' h'. subst (Restores w) h' (
                store_dockerfile-Restores found v
                  (subst (Restores w) h (find_context-Restores inp t))))
              (λ e v' h'. tt))
          (λ e v h. tt))
  ]
