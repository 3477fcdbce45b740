-- ===== src/Driver.antt =====
-- pkg/driver/manager.go: the registry of driver factories. The factory and what it makes are
-- parameters. A `range` over the registry visits it in the order of the list.
pub mod Boot
pub mod Choice
use buildkit_cli_for_kubectl.Prelude.{
  ℕ, zero, suc, ◌+◌, String, Bool, true, false, not, ◌&&◌, Option, none, some, List, [], ◌∷◌, ◌++◌,
  map, length, Map, insert, Result, ok, err, Error, errorf, if◌then◌else◌, ◌==◌, ltb,
}
use buildkit_cli_for_kubectl.Text.Number.{ℤ, int_leb}

pub record Factory : Type 0 where
  pub name : String
  pub allows_instances : Bool
  pub priority : ℤ

abbrev pub panic : {A : Type 0} → String → Result A
panic what = err (errorf "panic" (what ∷ []))

unfoldable pub register : Factory → Map Factory → Map Factory
register f drivers = insert f.name f drivers

-- The test under which the loops `continue`.
abbrev pub is_skipped : Bool → Factory → Bool
is_skipped instance_required f = instance_required && not f.allows_instances

pub candidates : Bool → Map Factory → List Factory
candidates instance_required [] = []
candidates instance_required ((k, f) ∷ m) =
    let rest = candidates instance_required m in
    if is_skipped instance_required f then rest else f ∷ rest

-- The element that `sort.Slice` by priority puts first.
pub least : Factory → List Factory → Factory
least f [] = f
least f (g ∷ gs) = let best = least g gs in if int_leb f.priority best.priority then f else best

first : List Factory → Result Factory
unfolding least
first [] = panic "index out of range"
first (f ∷ fs) = ok (least f fs)

unfoldable pub get_default_factory : Bool → Map Factory → Result Factory
unfolding candidates first
get_default_factory instance_required [] = err (errorf "no drivers available" [])
get_default_factory instance_required (d ∷ m) = first (candidates instance_required (d ∷ m))

-- The loop of `GetFactory`: `n` is the length of `validNames`, `i` the index before the increment.
pub find_factory : String → Bool → ℕ → ℕ → Map Factory → Result (Option Factory)
find_factory name instance_required n i [] = ok none
find_factory name instance_required n i ((k, f) ∷ m) =
    let rest = find_factory name instance_required n (suc i) m in
    if is_skipped instance_required f
    then rest
    else if f.name == name
    then ok (some f)
    else if ltb (suc i) n
    then rest
    else panic "index out of range"

unfoldable pub get_factory : String → Bool → Map Factory → Result (Option Factory)
unfolding find_factory
get_factory name instance_required drivers =
    find_factory name instance_required (length drivers) 0 drivers

abbrev or_default : Option Factory → Map Factory → Result Factory
or_default (some f) drivers = ok f
or_default none drivers = get_default_factory false drivers

-- `GetDriver`, with `New` on the configuration that it has put together
unfoldable pub get_driver :
    {C D : Type 0} → (Factory → C → Result D) → Option Factory → C → Map Factory → Result D
get_driver {C} {D} new f ic drivers = make (or_default f drivers)
  where
    make : Result Factory → Result D
    make (ok g) = new g ic
    make (err e) = err e
