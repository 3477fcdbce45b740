-- ===== src/Text/Contains.antt =====
-- `strings.HasPrefix` and `strings.Contains`.
use Prim.Native.Char.{code}
use Prim.Native.String.{[], ◌∷◌}
use buildkit_cli_for_kubectl.Prelude.{String, ◌≡◌, refl, Bool, true, false, ◌&&◌, ◌||◌, nat_eq}

unfoldable pub has_prefix : String → String → Bool
has_prefix s [] = true
has_prefix [] (d ∷ t) = false
has_prefix (c ∷ s) (d ∷ t) = nat_eq (code c) (code d) && has_prefix s t

unfoldable pub contains : String → String → Bool
unfolding has_prefix
contains [] t = has_prefix [] t
contains (c ∷ s) t = has_prefix (c ∷ s) t || contains s t

contains_test : contains "/var/run/docker.sock is not a socket file" "is not a socket file" ≡ true
unfolding contains
contains_test = refl
