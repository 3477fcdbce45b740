-- ===== src/Build/Outputs/Resolved.antt =====
-- What `ParseOutputs` leaves for the solver.
use text.Mathlib.Text.{starts_with}
use buildkit_cli_for_kubectl.Prelude.{
  String, ◌≡◌, ◌≢◌, ◌⊎◌, refl, true, false, Option, none, some, List, [], ◌∷◌, Result, ok, err,
  ◌==◌, lookup, All, eq_iff, Ensures, Ensures-ok, Ensures-intro, lookup-delete, Bool-cases, inl,
  inr, text_ne, eq_of_text, text_eq_false, eq_refl, not, ◌&&◌,
}
use buildkit_cli_for_kubectl.Prelude.Io.{lift, Io-Ensures}
use buildkit_cli_for_kubectl.Text.Csv.{csv_read, IsPlain, csv_read-plain}
use buildkit_cli_for_kubectl.Text.Split.{Lacks, split-eq_self}
use buildkit_cli_for_kubectl.Build.Outputs.{
  Os, Stat, absent, is_dir, is_file, failed, Output, ExportEntry, set_output_dir, is_stream,
  open_dest, open_stream, dest_of, client_side, typed, opened, entry_of, is_shorthand, parse_output,
  parse_outputs, local_entry, with_output, without_dest, stdout,
}

-- The entry has a type that the solver knows how to export; `dest` is taken out where the client
-- writes the result.
pub record IsResolved (e : ExportEntry) : Type 0 where
  pub has_kind : e.kind ≢ ""
  pub no_registry : e.kind ≢ "registry"
  pub no_dest : (e.kind ≡ "local") ⊎ (is_stream e.kind ≡ true) → lookup "dest" e.attrs ≡ none

stream-cases : (k : String) → is_stream k ≡ true → (k ≡ "oci") ⊎ ((k ≡ "docker") ⊎ (k ≡ "tar"))
stream-cases k h = elim (Bool-cases (k == "oci")) [
  | inl e ↦ inl (eq_of_text _ _ e)
  | inr n ↦ elim (Bool-cases (k == "docker")) [
    | inl e ↦ inr (inl (eq_of_text _ _ e))
    | inr m ↦ inr (inr (eq_of_text _ _ (rw (n, m) at h)))
  ]
]

-- A stream's kind is neither of two other literals.
stream_ne :
    (k t : String)
    → is_stream k ≡ true
    → (("oci" == t) ≡ false) × (("docker" == t) ≡ false) × (("tar" == t) ≡ false)
    → k ≢ t
stream_ne k t s h = elim (stream-cases k s) [
  | inl e ↦ rw e (text_ne _ _ h.0)
  | inr (inl e) ↦ rw e (text_ne _ _ h.1)
  | inr (inr e) ↦ rw e (text_ne _ _ h.2)
]

lookup-without_dest : (out : ExportEntry) → lookup "dest" (without_dest out) ≡ none
lookup-without_dest out = lookup-delete "dest" "dest" out.attrs

with_output-IsResolved :
    (out : ExportEntry) (o : Option Output)
    → is_stream out.kind ≡ true
    → IsResolved (with_output out o)
with_output-IsResolved out o s = record {
  has_kind = stream_ne out.kind "" s (refl, refl, refl);
  no_registry = stream_ne out.kind "registry" s (refl, refl, refl);
  no_dest = λ _. lookup-without_dest out;
}

set_output_dir-IsResolved :
    (out : ExportEntry) (d : Option String)
    → out.kind ≡ "local"
    → Ensures IsResolved (set_output_dir out d)
unfolding set_output_dir
set_output_dir-IsResolved out none e = tt
set_output_dir-IsResolved out (some d) e = record {
  has_kind = rw e (text_ne _ _ refl);
  no_registry = rw e (text_ne _ _ refl);
  no_dest = λ _. lookup-without_dest out;
}

opened-IsResolved {ℓ} :
    {W : Type ℓ} (out : ExportEntry) (dest : String) (r : Result (Unit {0}) × W)
    → is_stream out.kind ≡ true
    → Ensures IsResolved (opened out dest r).0
unfolding opened
opened-IsResolved out dest (ok u, w) s = with_output-IsResolved out _ s
opened-IsResolved out dest (err e, w) s = tt

-- The kind `image`, which a registry output becomes, is no kind that the client writes itself.
image_not_client : ¬ (◌≡◌ {A = String} "image" "local" ⊎ (is_stream "image" ≡ true))
image_not_client (inl e) = text_ne "image" "local" refl e
image_not_client (inr e) = cc

module _ (os : Os) where
  open os use {World, stdout_is_console, stat, create}

  open_dest-IsResolved :
      (out : ExportEntry) (dest : String) (st : Stat) (w : World)
      → is_stream out.kind ≡ true
      → Ensures IsResolved (open_dest os out dest st w).0
  unfolding open_dest
  open_dest-IsResolved out dest is_dir w s = tt
  open_dest-IsResolved out dest (failed e) w s = tt
  open_dest-IsResolved out dest absent w s = opened-IsResolved out dest (create dest w) s
  open_dest-IsResolved out dest is_file w s = opened-IsResolved out dest (create dest w) s

  open_stream-IsResolved :
      (out : ExportEntry) (dest : String) (w : World)
      → is_stream out.kind ≡ true
      → Ensures IsResolved (open_stream os out dest w).0
  unfolding open_stream
  open_stream-IsResolved out dest w s = elim (Bool-cases (dest == "-")) [
    | inl dash ↦ rw dash (elim (Bool-cases (stdout_is_console w)) [
      | inl tty ↦ rw tty tt
      | inr no_tty ↦ rw no_tty (with_output-IsResolved out (some stdout) s)
    ])
    | inr path ↦ rw path (elim (Bool-cases (dest == "")) [
      | inl empty ↦ rw empty (with_output-IsResolved out out.output s)
      | inr full ↦ rw full (open_dest-IsResolved out dest (stat w dest) w s)
    ])
  ]

  client_side-IsResolved :
      (out : ExportEntry) (w : World) → out.kind ≢ "" → Ensures IsResolved (client_side os out w).0
  unfolding client_side
  client_side-IsResolved out w h = elim (Bool-cases (out.kind == "local")) [
    | inl l ↦ rw l (set_output_dir-IsResolved out _ (eq_of_text _ _ l))
    | inr not_local ↦ rw not_local (elim (Bool-cases (is_stream out.kind)) [
      | inl s ↦ rw s (open_stream-IsResolved out (dest_of out) w s)
      | inr not_stream ↦ rw not_stream (elim (Bool-cases (out.kind == "registry")) [
        | inl r ↦ rw r (record {
          has_kind = text_ne _ _ refl;
          no_registry = text_ne _ _ refl;
          no_dest = λ c. absurd (image_not_client c);
        })
        | inr not_registry ↦ rw not_registry (record {
          has_kind = h;
          no_registry = λ e. cc (not_registry, (eq_iff out.kind "registry").1 e);
          no_dest = λ c. absurd (elim c [
            | inl e ↦ cc (not_local, (eq_iff out.kind "local").1 e)
            | inr e ↦ cc (not_stream, e)
          ]);
        })
      ])
    ])
  ]

  typed-has_kind : (out : ExportEntry) → Ensures (λ e. e.kind ≢ "") (typed out)
  unfolding typed
  typed-has_kind out = elim (Bool-cases (out.kind == "")) [
    | inl empty ↦ rw empty tt
    | inr full ↦ rw full (λ e. cc (full, (eq_iff out.kind "").1 e))
  ]

  parse_output-IsResolved : (s : String) (w : World) → Ensures IsResolved (parse_output os s w).0
  unfolding parse_output lookup
  parse_output-IsResolved s w =
      Io-Ensures (λ _. Unit {0}) IsResolved (lift (csv_read s)) _ w (Ensures-intro _ _ (λ _ _. tt))
        λ fields v _. elim (Bool-cases (is_shorthand s fields && not (s == "-"))) [
          | inl short ↦ rw short (record {
            has_kind = text_ne _ _ refl;
            no_registry = text_ne _ _ refl;
            no_dest = λ _. refl;
          })
          | inr long ↦ rw long (
              Io-Ensures (λ _. Unit {0}) IsResolved (lift (entry_of s fields)) _ v
                (Ensures-intro _ _ (λ _ _. tt))
                λ untyped u _.
                  Io-Ensures (λ e. e.kind ≢ "") IsResolved (lift (typed untyped)) _ u
                    (typed-has_kind untyped) λ out t h. client_side-IsResolved out t h)
        ]

  parse-IsResolved :
      (inp : List String) (w : World) → Ensures (All IsResolved) (parse_outputs os inp w).0
  unfolding parse_outputs
  parse-IsResolved [] w = tt
  parse-IsResolved (s ∷ inp) w =
      Io-Ensures IsResolved (All IsResolved) (parse_output os s) _ w (parse_output-IsResolved s w)
        λ out v h.
          Io-Ensures (All IsResolved) (All IsResolved) (parse_outputs os inp) _ v
            (parse-IsResolved inp v) λ outs u k. (h, k)

  -- Whatever the file system answers, each entry that comes back has a type, the shorthand `registry`
  -- is gone, and an entry that the client itself writes (local, oci, docker or tar) holds no `dest`.
  pub parse_outputs-IsResolved :
      (inp : List String) (w : World) {outs : List ExportEntry}
      → (parse_outputs os inp w).0 ≡ ok outs
      → All IsResolved outs
  parse_outputs-IsResolved inp w = Ensures-ok (All IsResolved) _ (parse-IsResolved inp w)

  -- A plain path with no comma, other than `-` and not beginning with `type=`, is a local export into
  -- that directory, and the file system stays as it was.
  pub parse_outputs_path :
      (s : String) (w : World)
      → IsPlain s
      → Lacks b',' s
      → s ≢ ""
      → s ≢ "-"
      → starts_with s "type=" ≡ false
      → parse_outputs os (s ∷ []) w ≡ (ok (local_entry s ∷ []), w)
  unfolding parse_outputs parse_output is_shorthand
  parse_outputs_path s w p c ne nd nt =
      rw (csv_read-plain s p ne)
        (rw (split-eq_self b',' s c) (rw (eq_refl s, nt, text_eq_false s "-" nd) refl))
