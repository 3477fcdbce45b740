-- ===== src/Build/Entitlements.antt =====
-- `ParseEntitlements` of pkg/build/entitlements.go.
use buildkit_cli_for_kubectl.Prelude.{
  String, ◌≡◌, refl, List, [], ◌∷◌, map, Result, ok, err, errorf, ◌>>=◌, if◌then◌else◌, ◌==◌,
  eq_iff, arith, ◌↔◌,
}

pub data Entitlement : Type 0 where
  security_insecure network_host : Entitlement

parse_entitlement : String → Result Entitlement
parse_entitlement v =
    if v == "security.insecure"
    then ok security_insecure
    else if v == "network.host"
    then ok network_host
    else err (errorf "invalid entitlement: %v" (v ∷ []))

unfoldable pub parse_entitlements : List String → Result (List Entitlement)
unfolding parse_entitlement
parse_entitlements [] = ok []
parse_entitlements (v ∷ vs) = do e ← parse_entitlement v; es ← parse_entitlements vs; ok (e ∷ es)

-- The name that the flag `--allow` takes.
abbrev pub flag_name : Entitlement → String
flag_name security_insecure = "security.insecure"
flag_name network_host = "network.host"

parse_entitlement-eq-ok :
    (v : String) (e : Entitlement) → parse_entitlement v ≡ ok e → v ≡ flag_name e
unfolding parse_entitlement
parse_entitlement-eq-ok v security_insecure h =
    ground (arith, eq_iff v "security.insecure", eq_iff v "network.host")
parse_entitlement-eq-ok v network_host h =
    ground (arith, eq_iff v "security.insecure", eq_iff v "network.host")

parse_entitlement-flag_name : (e : Entitlement) → parse_entitlement (flag_name e) ≡ ok e
unfolding parse_entitlement
parse_entitlement-flag_name security_insecure = refl
parse_entitlement-flag_name network_host = refl

parse_entitlements-eq-ok :
    (vs : List String) (es : List Entitlement)
    → parse_entitlements vs ≡ ok es
    → vs ≡ map flag_name es
unfolding parse_entitlements
parse_entitlements-eq-ok [] [] h = refl
parse_entitlements-eq-ok [] (e ∷ es) h = cc
parse_entitlements-eq-ok (v ∷ vs) [] h = ground arith
parse_entitlements-eq-ok (v ∷ vs) (e ∷ es) h =
    ground (arith, parse_entitlement-eq-ok v e, parse_entitlements-eq-ok vs es)

parse_entitlements-map : (es : List Entitlement) → parse_entitlements (map flag_name es) ≡ ok es
unfolding parse_entitlements
parse_entitlements-map [] = refl
parse_entitlements-map (e ∷ es) =
    ground (arith, parse_entitlement-flag_name e, parse_entitlements-map es)

-- The parser accepts a list of flags with a result exactly when the flags are the names of the
-- entitlements in that result, in the same order; any other word is refused.
pub parse_entitlements_iff :
    (vs : List String) (es : List Entitlement)
    → (parse_entitlements vs ≡ ok es) ↔ (vs ≡ map flag_name es)
parse_entitlements_iff vs es =
    (parse_entitlements-eq-ok vs es, λ e. rw e (parse_entitlements-map es))
