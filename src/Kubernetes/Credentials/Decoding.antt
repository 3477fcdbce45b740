-- ===== src/Kubernetes/Credentials/Decoding.antt =====
-- `decodeAuth` of pkg/driver/kubernetes/authprovider.go: base64 decodes into a buffer that is as long as the
-- text allows, and what it does not fill stays zero.
use Prim.Native.Char.{Char, code, nul}
use Prim.Native.Nat.{◌/◌}
use Prim.Native.String.{[], ◌∷◌}
use mathlib.Core.List.{[] as nil}
use text.Mathlib.TextLemmas.{nil-append, cons-append, append_assoc}
use buildkit_cli_for_kubectl.Prelude.{
  ℕ, zero, suc, ◌*◌, ◌-◌, String, ◌<>◌, ◌≡◌, refl, subst, ap, false, ◌&&◌, Option, none, some,
  Result, ok, err, errorf, if◌then◌else◌, ◌==◌, ltb, nat_eq, arith, text_eq_false, ◌≢◌, ◌≤◌,
}
use buildkit_cli_for_kubectl.Text.Split.{cut, cut-append, Lacks, has_code}

-- `base64.StdEncoding`: the decoded bytes
pub record Base64 : Type 0 where
  pub decode : String → Result String

unfoldable pub text_length : String → ℕ
text_length [] = 0
text_length (c ∷ s) = suc (text_length s)

-- `DecodedLen`
unfoldable pub decoded_len : ℕ → ℕ
decoded_len n = n / 4 * 3

zeros : ℕ → String
zeros zero = ""
zeros (suc n) = nul ∷ zeros n

trim_left_zeros : String → String
trim_left_zeros [] = []
trim_left_zeros (c ∷ s) = let rest = trim_left_zeros s in if nat_eq (code c) 0 then rest else c ∷ s

trim_right_zeros : String → String
trim_right_zeros [] = []
trim_right_zeros (c ∷ s) =
    let rest = trim_right_zeros s in if rest == "" && nat_eq (code c) 0 then "" else c ∷ rest

-- `strings.Trim(s, "\x00")`
trim_zeros : String → String
unfolding trim_left_zeros trim_right_zeros
trim_zeros s = trim_right_zeros (trim_left_zeros s)

login : Option (String × String) → Result (String × String)
unfolding trim_zeros
login none = err (errorf "Invalid auth configuration file" nil)
login (some (user, pass)) = ok (user, trim_zeros pass)

from_buffer : ℕ → Result String → Result (String × String)
unfolding login zeros text_length
from_buffer len (err e) = err e
from_buffer len (ok decoded) =
    if ltb len (text_length decoded)
    then err (errorf "Something went wrong decoding auth config" nil)
    else login (cut b':' (decoded <> zeros (len - text_length decoded)))

unfoldable pub decode_auth : Base64 → String → Result (String × String)
unfolding from_buffer decoded_len
decode_auth base64 auth =
    if auth == ""
    then ok ("", "")
    else from_buffer (decoded_len (text_length auth)) (base64.decode auth)

trim_right_zeros-zeros : (n : ℕ) → trim_right_zeros (zeros n) ≡ ""
unfolding trim_right_zeros zeros
trim_right_zeros-zeros zero = refl
trim_right_zeros-zeros (suc n) = rw (trim_right_zeros-zeros n) refl

trim_left_zeros-zeros : (n : ℕ) → trim_left_zeros (zeros n) ≡ ""
unfolding trim_left_zeros zeros
trim_left_zeros-zeros zero = refl
trim_left_zeros-zeros (suc n) = trim_left_zeros-zeros n

trim_right_zeros-append : (s : String) (n : ℕ) → Lacks 0 s → trim_right_zeros (s <> zeros n) ≡ s
unfolding trim_right_zeros has_code
trim_right_zeros-append [] n h = rw nil-append (trim_right_zeros-zeros n)
trim_right_zeros-append (c ∷ s) n h = rw cons-append (ground (arith, trim_right_zeros-append s n))

trim_left_zeros-cons : (c : Char) (s t : String) → Lacks 0 (c ∷ s) → trim_left_zeros (c ∷ t) ≡ c ∷ t
unfolding trim_left_zeros has_code
trim_left_zeros-cons c s t h = ground arith

trim_zeros-append : (s : String) (n : ℕ) → Lacks 0 s → trim_zeros (s <> zeros n) ≡ s
unfolding trim_zeros
trim_zeros-append [] n h = rw nil-append (rw (trim_left_zeros-zeros n) refl)
trim_zeros-append (c ∷ s) n h = rw cons-append (
    rw (trim_left_zeros-cons c s (s <> zeros n) h) (
      subst (λ t. trim_right_zeros t ≡ c ∷ s) (cons-append c s (zeros n))
        (trim_right_zeros-append (c ∷ s) n h)))

ltb-false : (a b : ℕ) → b ≤ a → ltb a b ≡ false
ltb-false a b h = ground arith

from_buffer-login :
    (len : ℕ) (user pass : String)
    → text_length (user <> (":" ∷ pass)) ≤ len
    → Lacks b':' user
    → Lacks 0 pass
    → from_buffer len (ok (user <> (":" ∷ pass))) ≡ ok (user, pass)
unfolding from_buffer login
from_buffer-login len user pass fits hu hp =
    let rest = zeros (len - text_length (user <> (":" ∷ pass))) in
    rw (ltb-false len (text_length (user <> (":" ∷ pass))) fits) (
      rw (append_assoc user (":" ∷ pass) rest) (
        rw (cons-append ":" pass rest) (
          rw (cut-append ":" user (pass <> rest) hu) (
            ap (λ t. ok (user, t))
              (trim_zeros-append pass (len - text_length (user <> (":" ∷ pass))) hp)))))

-- A text that decodes to a name without a colon, a colon, and a password without zero bytes gives this name
-- and this password.
pub decode_auth-login :
    (base64 : Base64) (auth user pass : String)
    → auth ≢ ""
    → base64.decode auth ≡ ok (user <> (":" ∷ pass))
    → text_length (user <> (":" ∷ pass)) ≤ decoded_len (text_length auth)
    → Lacks b':' user
    → Lacks 0 pass
    → decode_auth base64 auth ≡ ok (user, pass)
unfolding decode_auth
decode_auth-login base64 auth user pass ne d fits hu hp =
    rw (text_eq_false auth "" ne)
      (rw d (from_buffer-login (decoded_len (text_length auth)) user pass fits hu hp))
