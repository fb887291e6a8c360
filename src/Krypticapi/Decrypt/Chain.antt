-- ===== src/Krypticapi/Decrypt/Chain.antt =====
-- The decryption of a bundle, described apart from its loop.
use kryptic_k8s_operator.Base.Dict
use kryptic_k8s_operator.Base.Dict.{Dict, NodupKeys}
use kryptic_k8s_operator.Base.{◌≡◌, refl, ◌↔◌, inl, inr, List, [], ◌∷◌, Text, text_eq, arith}
use kryptic_k8s_operator.Errors.{Result, Result-cases, ok}
use kryptic_k8s_operator.Krypticapi.{Bundle}
use kryptic_k8s_operator.Krypticapi.Decrypt.{Crypto, BundleEntry, open_entries}

module _ (X : Crypto) (org_key : Text) where
  abbrev opened : BundleEntry → Result Text
  opened entry =
      X.open_envelope org_key entry.envelope
        (X.secret_context entry.definition_id entry.environment_id)

  -- The entries all open, to these pairs.
  pub data Opens : List BundleEntry → Dict Text Text → Type 0 where
    done : Opens [] []
    next :
        {entry : BundleEntry} {entries : List BundleEntry} {pairs : Dict Text Text}
        {plaintext : Text}
        → X.open_envelope org_key entry.envelope
            (X.secret_context entry.definition_id entry.environment_id)
          ≡ ok plaintext
        → Opens entries pairs
        → Opens (entry ∷ entries) ((entry.key, plaintext) ∷ pairs)

  open_entries-Opens :
      (quote : Text → Text) (entries : List BundleEntry) (start result : Bundle)
      → open_entries X quote org_key entries start ≡ ok result
      → (pairs : Dict Text Text) × Opens entries pairs × (result ≡ Dict.put_all start pairs)
  unfolding open_entries Dict.put_all
  open_entries-Opens quote [] start result e = ([], done, ground arith)
  open_entries-Opens quote (entry ∷ entries) start result e = elim (Result-cases (opened entry)) [
    | inl (e', broken) ↦ ground arith
    | inr (plaintext, open_ok) ↦
        let (pairs, opens, same) =
          open_entries-Opens quote entries (Dict.insert entry.key plaintext start) result
            (ground arith) in
        ((entry.key, plaintext) ∷ pairs, next open_ok opens, same)
  ]

  Opens-open_entries :
      (quote : Text → Text) {entries : List BundleEntry} {pairs : Dict Text Text} (start : Bundle)
      → Opens entries pairs
      → open_entries X quote org_key entries start ≡ ok (Dict.put_all start pairs)
  unfolding open_entries Dict.put_all
  Opens-open_entries quote start done = refl
  Opens-open_entries quote start (next {entry = entry} {plaintext = p} open_ok opens) =
      rw (open_ok, open_entries) (Opens-open_entries quote (Dict.insert entry.key p start) opens)

  -- A bundle decrypts exactly if each of its envelopes opens under the key, in the context of its
  -- ids, and the result then has the last plaintext of each key; so one bad envelope gives no
  -- bundle at all.
  pub open_entries_iff :
      (quote : Text → Text) (entries : List BundleEntry) (result : Bundle)
      → (open_entries X quote org_key entries [] ≡ ok result)
        ↔ ((pairs : Dict Text Text) × Opens entries pairs × (result ≡ Dict.put_all [] pairs))
  open_entries_iff quote entries result = (
    open_entries-Opens quote entries [] result,
    λ (pairs, opens, same). rw same (Opens-open_entries quote [] opens),
  )
