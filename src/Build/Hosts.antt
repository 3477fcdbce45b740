-- ===== src/Build/Hosts.antt =====
-- `toBuildkitExtraHosts` of pkg/build/utils.go, with the part of `net.ParseIP` that it can reach:
-- the text handed to it holds no colon, so it is read as a dotted IPv4 address.
use Prim.Native.Char.{code}
use Prim.Native.String.{[], ◌∷◌}
use mathlib.Core.List.{[] as nil, ◌∷◌ as cons}
use buildkit_cli_for_kubectl.Prelude.{
  ℕ, ◌+◌, ◌-◌, ◌*◌, String, ◌<>◌, ◌≡◌, refl, Bool, true, false, not, ◌&&◌, ◌||◌, Option, none, some,
  List, map, Result, ok, err, Error, errorf, ◌>>=◌, if◌then◌else◌, leb, ◌==◌, map_results, All,
  nat_eq,
}
use buildkit_cli_for_kubectl.Text.Split.{split, join, Lacks, split-join}

digits_value : ℕ → String → Option ℕ
digits_value n [] = some n
digits_value n (c ∷ s) =
    let d = code c in
    let rest = digits_value (n * 10 + (d - 48)) s in if leb 48 d && leb d 57 then rest else none

is_byte : Option ℕ → Bool
is_byte none = false
is_byte (some n) = leb n 255

-- A number of an IPv4 address: decimal digits, with no leading zero, at most 255.
octet : String → Bool
octet [] = false
octet (c ∷ []) = is_byte (digits_value 0 (c ∷ []))
octet (c ∷ (d ∷ s)) = not (nat_eq (code c) 48) && is_byte (digits_value 0 (c ∷ (d ∷ s)))

four_octets : List String → Bool
four_octets (cons a (cons b (cons c (cons d nil)))) = octet a && octet b && octet c && octet d
four_octets _ = false

-- `net.ParseIP(s) != nil`, for a text without a colon
unfoldable pub parse_ip : String → Bool
unfolding digits_value is_byte octet four_octets
parse_ip s = four_octets (split b'.' s)

invalid_host : String → Error
invalid_host h = errorf "invalid host %s" (cons h nil)

host_parts : String → List String → Result String
unfolding invalid_host
host_parts h (cons name (cons ip nil)) =
    if name == "" || not (parse_ip ip) then err (invalid_host h) else ok (name <> ("=" <> ip))
host_parts h _ = err (invalid_host h)

extra_host : String → Result String
unfolding host_parts
extra_host h = host_parts h (split b':' h)

join_hosts : List String → Result String
join_hosts nil = ok ""
join_hosts (cons h inp) = do hosts ← map_results extra_host (cons h inp); ok (join "," hosts)

unfoldable pub to_buildkit_extra_hosts : List String → Result String
unfolding extra_host join_hosts
to_buildkit_extra_hosts inp = join_hosts inp

-- A host that the converter accepts, as docker's `name:address` gives it.
pub record HostEntry : Type 0 where
  pub name : String
  pub ip : String

abbrev pub docker_form : HostEntry → String
docker_form h = join ":" (cons h.name (cons h.ip nil))

abbrev pub buildkit_form : HostEntry → String
buildkit_form h = h.name <> ("=" <> h.ip)

pub record IsHost (h : HostEntry) : Type 0 where
  pub named : (h.name == "") ≡ false
  pub name_no_colon : Lacks b':' h.name
  pub ip_no_colon : Lacks b':' h.ip
  pub valid : parse_ip h.ip ≡ true

extra_host-docker_form :
    (h : HostEntry) → IsHost h → extra_host (docker_form h) ≡ ok (buildkit_form h)
unfolding extra_host
extra_host-docker_form h v =
    rw (split-join ":" (cons h.name (cons h.ip nil)) (cc) (v.name_no_colon, (v.ip_no_colon, tt)))
      (rw (v.named, v.valid))

map-docker_form :
    (hs : List HostEntry)
    → All IsHost hs
    → map_results extra_host (map docker_form hs) ≡ ok (map buildkit_form hs)
map-docker_form nil v = refl
map-docker_form (cons h hs) v = rw (extra_host-docker_form h v.0) (rw (map-docker_form hs v.1))

-- Every list of valid hosts in docker's form is converted to buildkit's form, in order.
pub to_buildkit_extra_hosts-map :
    (hs : List HostEntry)
    → All IsHost hs
    → to_buildkit_extra_hosts (map docker_form hs) ≡ ok (join "," (map buildkit_form hs))
unfolding to_buildkit_extra_hosts join
to_buildkit_extra_hosts-map nil v = refl
to_buildkit_extra_hosts-map (cons h hs) v = rw (map-docker_form (cons h hs) v)
