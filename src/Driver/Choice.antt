-- ===== src/Driver/Choice.antt =====
-- Which factory the registry answers with.
use buildkit_cli_for_kubectl.Prelude.{
  ℕ, suc, ◌+◌, String, ◌≡◌, refl, Bool, true, false, List, [], ◌∷◌, length, Map, All, ok, ◌==◌, ltb,
  Bool-cases, ◌⊎◌, inl, inr, subst, arith,
}
use buildkit_cli_for_kubectl.Text.Number.{ℤ, pos, negsuc, int_leb}
use buildkit_cli_for_kubectl.Driver.{
  Factory, panic, candidates, least, first, get_default_factory, find_factory, get_factory,
}

-- No factory of the list comes before the one in priority.
abbrev pub IsLeast : Factory → List Factory → Type 0
IsLeast f fs = All (λ g. int_leb f.priority g.priority ≡ true) fs

abbrev pub Unmatched : String → Map Factory → Type 0
Unmatched name [] = Unit
Unmatched name ((k, f) ∷ m) = ((f.name == name) ≡ false) × Unmatched name m

ltb-last : (i n : ℕ) → i ≡ n → ltb (suc i) (suc n) ≡ false
ltb-last i n h = ground arith

ltb-more : (i m n : ℕ) → i + suc m ≡ n → ltb (suc i) (suc n) ≡ true
ltb-more i m n h = ground arith

-- Where no registered factory has the name, and one at least is registered, `GetFactory` without
-- required instances does not return nil: it writes behind the end of `validNames`.
pub get_factory-panic :
    (name : String) (drivers : Map Factory) (d : String × Factory)
    → Unmatched name (d ∷ drivers)
    → get_factory name false (d ∷ drivers) ≡ panic "index out of range"
unfolding get_factory
get_factory-panic name drivers d h = from 0 d drivers h (omega arith)
  where
    from :
        (i : ℕ) (d : String × Factory) (m : Map Factory)
        → Unmatched name (d ∷ m)
        → i + length (d ∷ m) ≡ length (d ∷ drivers)
        → find_factory name false (length (d ∷ drivers)) i (d ∷ m) ≡ panic "index out of range"
    from i (k, f) [] h e = rw h.0 (rw (ltb-last i (length drivers) (omega (arith, e))) refl)
    from i (k, f) (d' ∷ m) h e = rw h.0 (
        rw (ltb-more i (length m) (length drivers) (omega (arith, e)))
          (from (suc i) d' m h.1 (omega (arith, e))))

int_leb_total : (a b : ℤ) → int_leb a b ≡ false → int_leb b a ≡ true
unfolding int_leb
int_leb_total (pos a) (pos b) h = ground arith
int_leb_total (pos a) (negsuc b) h = refl
int_leb_total (negsuc a) (pos b) h = absurd (cc)
int_leb_total (negsuc a) (negsuc b) h = ground arith

int_leb_trans : (a b c : ℤ) → int_leb a b ≡ true → int_leb b c ≡ true → int_leb a c ≡ true
unfolding int_leb
int_leb_trans (pos a) (pos b) (pos c) h k = ground arith
int_leb_trans (pos a) (pos b) (negsuc c) h k = absurd (cc)
int_leb_trans (pos a) (negsuc b) c h k = absurd (cc)
int_leb_trans (negsuc a) (pos b) (pos c) h k = refl
int_leb_trans (negsuc a) (pos b) (negsuc c) h k = absurd (cc)
int_leb_trans (negsuc a) (negsuc b) (pos c) h k = refl
int_leb_trans (negsuc a) (negsuc b) (negsuc c) h k = ground arith

int_leb_refl : (a : ℤ) → int_leb a a ≡ true
unfolding int_leb
int_leb_refl (pos a) = ground arith
int_leb_refl (negsuc a) = ground arith

weaken :
    (f g : Factory) (fs : List Factory)
    → int_leb f.priority g.priority ≡ true
    → IsLeast g fs
    → IsLeast f fs
weaken f g [] h k = tt
weaken f g (x ∷ xs) h k =
    (int_leb_trans f.priority g.priority x.priority h k.0, weaken f g xs h k.1)

-- One of the list.
abbrev pub IsOneOf : Factory → List Factory → Type 0
IsOneOf f [] = ⊥
IsOneOf f (g ∷ gs) = (f ≡ g) ⊎ IsOneOf f gs

least-IsLeast :
    (f : Factory) (gs : List Factory)
    → IsLeast (least f gs) (f ∷ gs) × IsOneOf (least f gs) (f ∷ gs)
unfolding least
least-IsLeast f [] = ((int_leb_refl f.priority, tt), inl refl)
least-IsLeast f (g ∷ gs) =
    let (least_rest, one) = least-IsLeast g gs in
    elim (Bool-cases (int_leb f.priority (least g gs).priority)) [
      | inl e ↦
          subst (λ x. IsLeast x (f ∷ g ∷ gs) × IsOneOf x (f ∷ g ∷ gs)) (first_best e)
            ((int_leb_refl f.priority, weaken f (least g gs) (g ∷ gs) e least_rest), inl refl)
      | inr n ↦
          subst (λ x. IsLeast x (f ∷ g ∷ gs) × IsOneOf x (f ∷ g ∷ gs)) (rest_best n)
            ((int_leb_total f.priority (least g gs).priority n, least_rest), inr one)
    ]
  where
    first_best : int_leb f.priority (least g gs).priority ≡ true → f ≡ least f (g ∷ gs)
    first_best e = rw e refl

    rest_best : int_leb f.priority (least g gs).priority ≡ false → least g gs ≡ least f (g ∷ gs)
    rest_best n = rw n refl

-- The default factory is one of the registered ones that allow instances where they are required, and
-- none of those comes before it in priority.
pub get_default_factory-IsLeast :
    (instance_required : Bool) (drivers : Map Factory) (f : Factory)
    → get_default_factory instance_required drivers ≡ ok f
    → IsLeast f (candidates instance_required drivers)
      × IsOneOf f (candidates instance_required drivers)
unfolding get_default_factory first
get_default_factory-IsLeast instance_required [] f h = absurd (cc)
get_default_factory-IsLeast instance_required (d ∷ m) f h =
    of_first (candidates instance_required (d ∷ m)) h
  where
    of_first : (fs : List Factory) → first fs ≡ ok f → IsLeast f fs × IsOneOf f fs
    of_first [] k = absurd (cc)
    of_first (g ∷ gs) k =
        subst (λ x. IsLeast x (g ∷ gs) × IsOneOf x (g ∷ gs)) (ok_injective k) (least-IsLeast g gs)
      where
        ok_injective : {a b : Factory} → ok a ≡ ok b → a ≡ b
        ok_injective p = cc
