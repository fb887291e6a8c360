-- ===== src/Strings/Fields.antt =====
-- `strings.Fields`, `strings.Join`, and `strconv.Atoi`.
use kryptic_k8s_operator.Base.Int.{ℤ, pos, negsuc}
use kryptic_k8s_operator.Base.{
  ℕ, zero, suc, ◌+◌, ◌-◌, ◌*◌, ◌&&◌, Option, none, some, List, [], ◌∷◌, ◌++◌, Text, ◌==◌, text_eq,
  nat_eq, if◌then◌else◌, leb, is_empty,
}
use kryptic_k8s_operator.Strings.{space_width}

-- A part that is not empty.
abbrev pub flush : Text → List Text
flush [] = []
flush (a ∷ s) = (a ∷ s) ∷ []

-- The loop over the bytes: those left of the current space, and the current field.
unfoldable pub fields_from : ℕ → Text → Text → List Text
fields_from skip current [] = flush current
fields_from (suc k) current (a ∷ s) = fields_from k current s
fields_from zero current (a ∷ s) = elim (space_width (a ∷ s)) [
  | zero ↦ fields_from 0 (current ++ a ∷ []) s
  | suc k ↦ flush current ++ fields_from k [] s
]

-- `strings.Fields`
unfoldable pub fields : Text → List Text
unfolding fields_from
fields s = fields_from 0 [] s

-- `strings.Join`
unfoldable pub join : Text → List Text → Text
join sep [] = []
join sep (s ∷ []) = s
join sep (s ∷ t ∷ rest) = s ++ (sep ++ join sep (t ∷ rest))

-- The value of decimal digits, read on from `n`; none where another byte stands.
digits_value : ℕ → Text → Option ℕ
digits_value n [] = some n
digits_value n (a ∷ s) =
    let rest = digits_value (10 * n + (a - 48)) s in if leb 48 a && leb a 57 then rest else none

natural : Text → Option ℕ
unfolding digits_value
natural s = if is_empty s then none else digits_value 0 s

minus : ℕ → Option ℤ
minus zero = some (pos 0)
minus (suc n) = if leb n 9223372036854775807 then some (negsuc n) else none

plus : ℕ → Option ℤ
plus n = if leb n 9223372036854775807 then some (pos n) else none

-- `strconv.Atoi`: 64 bits.
unfoldable pub atoi : Text → Option ℤ
unfolding natural minus plus
atoi [] = none
atoi (a ∷ s) =
    if a == b'-'
    then elim (natural s) [ none ↦ none | some n ↦ minus n ]
    else if a == b'+'
    then elim (natural s) [ none ↦ none | some n ↦ plus n ]
    else elim (natural (a ∷ s)) [ none ↦ none | some n ↦ plus n ]
