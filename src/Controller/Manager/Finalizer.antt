-- ===== src/Controller/Manager/Finalizer.antt =====
-- The finalizer of internal/controller/manager.go: `hasFinalizer`, `sameStrings`, and the list that
-- `setFinalizer` writes.
use kryptic_k8s_operator.Base.{
  ◌≡◌, refl, sym, ap, ◌≢◌, ◌↔◌, Bool, true, false, ◌&&◌, ◌||◌, List, [], ◌∷◌, ◌++◌, Text, ◌==◌,
  ==-refl, contains, text_eq, arith, if◌then◌else◌,
}
use mathlib.Core.List.{append-nil}
use kryptic_k8s_operator.Controller.Types.{lease_finalizer}

-- `hasFinalizer`: the loop over the names.
unfoldable pub has_finalizer : List Text → Bool
has_finalizer [] = false
has_finalizer (name ∷ names) = name == lease_finalizer || has_finalizer names

-- The loop of `setFinalizer`.
unfoldable pub without_finalizer : List Text → List Text
without_finalizer [] = []
without_finalizer (name ∷ names) =
    let rest = without_finalizer names in if name == lease_finalizer then rest else name ∷ rest

-- `next` of `setFinalizer`
unfoldable pub next_finalizers : List Text → Bool → List Text
next_finalizers names add =
    if add then without_finalizer names ++ lease_finalizer ∷ [] else without_finalizer names

-- `sameStrings`
unfoldable pub same_strings : List Text → List Text → Bool
same_strings [] [] = true
same_strings [] (t ∷ right) = false
same_strings (s ∷ left) [] = false
same_strings (s ∷ left) (t ∷ right) = s == t && same_strings left right

pub same_strings_iff : (left right : List Text) → (same_strings left right ≡ true) ↔ (left ≡ right)
unfolding same_strings
same_strings_iff [] [] = ground arith
same_strings_iff [] (t ∷ right) = ground arith
same_strings_iff (s ∷ left) [] = ground arith
same_strings_iff (s ∷ left) (t ∷ right) = ground (arith, same_strings_iff left right)

has_finalizer-append :
    (names more : List Text)
    → has_finalizer (names ++ more) ≡ (has_finalizer names || has_finalizer more)
unfolding has_finalizer
has_finalizer-append [] more = refl
has_finalizer-append (name ∷ names) more = ground (arith, has_finalizer-append names more)

has_finalizer-without : (names : List Text) → has_finalizer (without_finalizer names) ≡ false
unfolding has_finalizer without_finalizer
has_finalizer-without [] = refl
has_finalizer-without (name ∷ names) = ground (arith, has_finalizer-without names)

contains-without :
    (names : List Text) (other : Text)
    → other ≢ lease_finalizer
    → contains (without_finalizer names) other ≡ contains names other
unfolding without_finalizer
contains-without [] other ne = refl
contains-without (name ∷ names) other ne = ground (arith, contains-without names other ne)

contains-append :
    (names more : List Text) (other : Text)
    → contains (names ++ more) other ≡ (contains names other || contains more other)
contains-append [] more other = refl
contains-append (name ∷ names) more other = ground (arith, contains-append names more other)

without_of_absent :
    (names : List Text) → has_finalizer names ≡ false → without_finalizer names ≡ names
unfolding has_finalizer without_finalizer
without_of_absent [] absent = refl
without_of_absent (name ∷ names) absent = ground (arith, without_of_absent names)

without-append :
    (names more : List Text)
    → without_finalizer (names ++ more) ≡ without_finalizer names ++ without_finalizer more
unfolding without_finalizer
without-append [] more = refl
without-append (name ∷ names) more = ground (arith, without-append names more)

without-next :
    (names : List Text) (add : Bool)
    → without_finalizer (next_finalizers names add) ≡ without_finalizer names
unfolding next_finalizers
without-next names false = without_of_absent _ (has_finalizer-without names)
without-next names true =
    rw (without-append, without_of_absent _ (has_finalizer-without names), without_alone)
      (append-nil _)
  where
    without_alone : without_finalizer (lease_finalizer ∷ []) ≡ []
    without_alone = unfold without_finalizer in rw ==-refl

has_finalizer_alone : has_finalizer (lease_finalizer ∷ []) ≡ true
unfolding has_finalizer
has_finalizer_alone = rw ==-refl

next-next :
    (names : List Text) (add : Bool)
    → next_finalizers names add ≡ next_finalizers (next_finalizers names add) add
unfolding next_finalizers
next-next names false = sym (without-next names false)
next-next names true = ap (λ l. l ++ lease_finalizer ∷ []) (sym (without-next names true))

-- After `setFinalizer` the finalizer is there exactly if it was to be added, every other finalizer
-- is as before, and a second call with the same flag finds nothing to change.
pub next_finalizers_lem :
    (names : List Text) (add : Bool) (other : Text)
    → other ≢ lease_finalizer
    → (has_finalizer (next_finalizers names add) ≡ add)
      × (contains (next_finalizers names add) other ≡ contains names other)
      × (same_strings (next_finalizers names add) (next_finalizers (next_finalizers names add) add)
          ≡ true)
unfolding next_finalizers
next_finalizers_lem names add other ne = (
  ground (
    arith,
    has_finalizer-without names,
    has_finalizer-append (without_finalizer names) (lease_finalizer ∷ []),
    has_finalizer_alone,
  ),
  ground (
    arith,
    contains-without names other ne,
    contains-append (without_finalizer names) (lease_finalizer ∷ []) other,
  ),
  (same_strings_iff _ _).1 (next-next names add),
)
