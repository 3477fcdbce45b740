-- ===== src/Commands/Builders/Removal.antt =====
-- What `rm` does to the builders.
use buildkit_cli_for_kubectl.Prelude.{
  String, ◌≡◌, ap, All, eq_refl, Bool, true, false, some, List, [], ◌∷◌, Map, ok, is_in,
  if◌then◌else◌, ◌==◌, arith,
}
use buildkit_cli_for_kubectl.Prelude.Io.{Io, pure, lift, Io-keeps}
use buildkit_cli_for_kubectl.Driver.{Factory, get_driver}
use buildkit_cli_for_kubectl.Kubernetes.Operations.{Builder}
use buildkit_cli_for_kubectl.Commands.Builders.{
  Drivers, driver_for, remove_one, remove_named, remove_builders, remove_from, run_rm,
}

module _ (api : Drivers) (drivers : Map Factory) (names : List String) (P : api.World → Type 0)
    (lists : (d : api.Driver) (w : api.World) → P w → P (api.list d w).1)
    (removes : (f : Factory) (name : String) (d : api.Driver)
      → is_in name names ≡ true
      → get_driver api.new (some f) name drivers ≡ ok d
      → (w : api.World) → P w
      → P (api.rm d w).1) where
  abbrev Keeps : Io api.World (Unit {0}) → Type 0
  Keeps m = (w : api.World) → P w → P (m w).1

  remove_one-Keeps :
      (f : Factory) (name : String)
      → is_in name names ≡ true
      → Keeps (remove_one api f drivers name)
  unfolding remove_one driver_for
  remove_one-Keeps f name h w p =
      Io-keeps P (lift (get_driver api.new (some f) name drivers)) api.rm w p
        (λ d v e q. removes f name d h (lifted e) v q)
    where
      lifted :
          {d : api.Driver} {v : api.World}
          → lift (get_driver api.new (some f) name drivers) w ≡ (ok d, v)
          → get_driver api.new (some f) name drivers ≡ ok d
      lifted e = ap (λ r. r.0) e

  -- The names of a list are among those to delete.
  AreNamed : List String → Type 0
  AreNamed ns = All (λ n. is_in n names ≡ true) ns

  if-Keeps : (b : Bool) (m : Io api.World (Unit {0})) → Keeps m → Keeps (if b then m else pure tt)
  if-Keeps true m k = k
  if-Keeps false m k = λ w p. p

  remove_named-Keeps :
      (f : Factory) (name : String) (ns : List String)
      → AreNamed ns
      → Keeps (remove_named api f drivers name ns)
  unfolding remove_named AreNamed
  remove_named-Keeps f name [] h w p = p
  remove_named-Keeps f name (n ∷ ns) h w p =
      Io-keeps P (if name == n then remove_one api f drivers n else pure tt) _ w
        (if-Keeps (name == n) (remove_one api f drivers n) (remove_one-Keeps f n h.0) w p)
        (λ u v e q. remove_named-Keeps f name ns h.1 v q)

  remove_builders-Keeps :
      (f : Factory) (bs : List Builder)
      → AreNamed names
      → Keeps (remove_builders api f drivers names bs)
  unfolding remove_builders
  remove_builders-Keeps f [] h w p = p
  remove_builders-Keeps f (b ∷ bs) h w p =
      Io-keeps P (remove_named api f drivers b.name names) _ w
        (remove_named-Keeps f b.name names h w p) (λ u v e q. remove_builders-Keeps f bs h v q)

  remove_from-Keeps : (m : Map Factory) → AreNamed names → Keeps (remove_from api drivers names m)
  unfolding remove_from driver_for
  remove_from-Keeps [] h w p = p
  remove_from-Keeps ((k, f) ∷ m) h w p =
      Io-keeps P (lift (get_driver api.new (some f) k drivers)) _ w p (λ d v e q.
        Io-keeps P (api.list d) _ v (lists d v q) (λ bs u e' r.
          Io-keeps P (remove_builders api f drivers names bs) _ u (remove_builders-Keeps f bs h u r)
            (λ x t e'' s. remove_from-Keeps m h t s)))

is_in-weaken : (n k : String) (ks : List String) → is_in n ks ≡ true → is_in n (k ∷ ks) ≡ true
unfolding is_in
is_in-weaken n k ks h = ground (arith, h)

All-weaken :
    (ns ms : List String)
    → All (λ n. is_in n ms ≡ true) ns
    → (k : String) → All (λ n. is_in n (k ∷ ms) ≡ true) ns
All-weaken [] ms h k = tt
All-weaken (n ∷ ns) ms h k = (is_in-weaken n k ms h.0, All-weaken ns ms h.1 k)

self_named : (ns : List String) → All (λ n. is_in n ns ≡ true) ns
self_named [] = tt
self_named (n ∷ ns) =
    (unfold is_in in (ground (arith, eq_refl n)), All-weaken ns ns (self_named ns) n)

-- `rm` keeps whatever the listing of builders keeps, and the removal of those that are named by its arguments:
-- it removes no other builder, whatever answers it gets and wherever it stops.
pub run_rm-keeps :
    (api : Drivers) (drivers : Map Factory) (names : List String) (P : api.World → Type 0)
    → ((d : api.Driver) (w : api.World) → P w → P (api.list d w).1)
    → ((f : Factory) (name : String) (d : api.Driver)
        → is_in name names ≡ true
        → get_driver api.new (some f) name drivers ≡ ok d
        → (w : api.World) → P w
        → P (api.rm d w).1)
    → (w : api.World) → P w
    → P (run_rm api drivers names w).1
unfolding run_rm
run_rm-keeps api drivers names P lists removes =
    remove_from-Keeps api drivers names P lists removes drivers
      (unfold AreNamed in (self_named names))
