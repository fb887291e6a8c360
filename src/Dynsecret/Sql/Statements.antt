-- ===== src/Dynsecret/Sql/Statements.antt =====
-- The statements of a script.
use kryptic_k8s_operator.Base.{
  ◌≡◌, refl, ◌≢◌, ap, ◌∙◌, List, [], ◌∷◌, ◌++◌, Text, text, text_eq, nat_eq, All, arith,
}
use mathlib.Core.List.{append_assoc}
use kryptic_k8s_operator.Strings.{trim_space, split}
use kryptic_k8s_operator.Strings.Split.{split-last, split-append}
use kryptic_k8s_operator.Strings.Count.{count}
use kryptic_k8s_operator.Strings.Fields.{join}
use kryptic_k8s_operator.Dynsecret.Sql.{split_statements, trimmed_statements}

-- Neither empty nor with a semicolon, and without space at its ends.
pub record IsStatement (s : Text) : Type 0 where
  pub one : count b';' s ≡ 0
  pub some_text : s ≢ []
  pub no_space : trim_space s ≡ s

trimmed_statements-cons :
    (s : Text) (parts : List Text)
    → IsStatement s
    → trimmed_statements (s ∷ parts) ≡ s ∷ trimmed_statements parts
unfolding trimmed_statements
trimmed_statements-cons s parts h = ground (arith, h.some_text, h.no_space)

trimmed_statements-blank :
    (parts : List Text) → trimmed_statements ([] ∷ parts) ≡ trimmed_statements parts
unfolding trimmed_statements trim_space text_eq
trimmed_statements-blank parts = refl

trimmed_statements-end : trimmed_statements ([] ∷ []) ≡ []
unfolding trimmed_statements trim_space text_eq
trimmed_statements-end = refl

trimmed_statements-one : (s : Text) → IsStatement s → trimmed_statements (s ∷ []) ≡ s ∷ []
unfolding trimmed_statements
trimmed_statements-one s h = ground (arith, h.some_text, h.no_space)

join-split :
    (stmts : List Text)
    → All IsStatement stmts
    → trimmed_statements (split b';' (join (text ";") stmts)) ≡ stmts
unfolding join text
join-split [] all = rw (split-last b';' [] refl) trimmed_statements-end
join-split (s ∷ []) (h, _) = rw (split-last b';' s h.one) (trimmed_statements-one s h)
join-split (s ∷ t ∷ rest) (h, all) = rw (split-append b';' s (join (text ";") (t ∷ rest)) h.one) (
    trimmed_statements-cons s (split b';' (join (text ";") (t ∷ rest))) h
    ∙ ap (λ parts. s ∷ parts) (join-split (t ∷ rest) all))

join-split_end :
    (stmts : List Text)
    → All IsStatement stmts
    → trimmed_statements (split b';' (join (text ";") stmts ++ text ";")) ≡ stmts
unfolding join text
join-split_end [] all =
    rw (split-append b';' [] [] refl, split-last b';' [] refl)
      (trimmed_statements-blank ([] ∷ []) ∙ trimmed_statements-end)
join-split_end (s ∷ []) (h, _) =
    rw (split-append b';' s [] h.one, split-last b';' [] refl)
      (trimmed_statements-cons s ([] ∷ []) h ∙ ap (λ parts. s ∷ parts) trimmed_statements-end)
join-split_end (s ∷ t ∷ rest) (h, all) =
    rw
      (
        append_assoc s (b';' ∷ join (text ";") (t ∷ rest)) (text ";"),
        split-append b';' s (join (text ";") (t ∷ rest) ++ text ";") h.one,
      )
      (trimmed_statements-cons s (split b';' (join (text ";") (t ∷ rest) ++ text ";")) h
        ∙ ap (λ parts. s ∷ parts) (join-split_end (t ∷ rest) all))

-- Statements that are joined by semicolons, with one behind the last or without, are split into
-- what they were, if none is empty, has a semicolon of its own, or space at an end.
pub split_statements-join :
    (stmts : List Text)
    → All IsStatement stmts
    → (split_statements (join (text ";") stmts) ≡ stmts)
      × (split_statements (join (text ";") stmts ++ text ";") ≡ stmts)
unfolding split_statements
split_statements-join stmts all = (join-split stmts all, join-split_end stmts all)
