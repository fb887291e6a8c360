-- ===== src/Krypticapi/Leases/Expanded.antt =====
-- The pairs that `expandMinted` makes of minted credentials, as `readMinted` collects them.
use kryptic_k8s_operator.Base.Dict
use kryptic_k8s_operator.Base.Dict.{Dict}
use kryptic_k8s_operator.Base.{
  ◌≡◌, none, some, [], ◌∷◌, ◌++◌, Text, text, ◌==◌, text_eq, arith, if◌then◌else◌, Bool, ◌&&◌, not,
}
use mathlib.Core.List.{append-nil}
use kryptic_k8s_operator.Strings.{trim_space}
use kryptic_k8s_operator.Krypticapi.Leases.{expand_minted}
use kryptic_k8s_operator.Dynsecret.Provider.{Minted}

append_cancel : (key s t : Text) → key ++ s ≡ key ++ t → s ≡ t
append_cancel [] s t e = e
append_cancel (a ∷ key) s t e = append_cancel key s t (ground arith)

append_end : (key s : Text) → key ++ s ≡ key → s ≡ []
append_end [] s e = e
append_end (a ∷ key) s e = append_end key s (ground arith)

==-append : (key s t : Text) → (key ++ s == key ++ t) ≡ (s == t)
==-append key s t = ground (arith, append_cancel key s t)

==-append_end : (key s : Text) → (key ++ s == key) ≡ (s == [])
==-append_end key s = ground (arith, append_end key s, append-nil key)

==-append_start : (key s : Text) → (key == key ++ s) ≡ (s == [])
==-append_start key s = ground (arith, append_end key s, append-nil key)

module _ (target : Dict Text Text) (skip : Bool) (j v : Text) where
  -- A pair that may be left out.
  abbrev with_pair : Dict Text Text
  with_pair = if skip then target else Dict.insert j v target

  put_all-pair :
      (rest : Dict Text Text)
      → Dict.put_all target ((if skip then [] else (j, v) ∷ []) ++ rest)
        ≡ Dict.put_all with_pair rest
  unfolding Dict.put_all
  put_all-pair rest = ground arith

  put_all-pair_end : Dict.put_all target (if skip then [] else (j, v) ∷ []) ≡ with_pair
  unfolding Dict.put_all
  put_all-pair_end = ground arith

  lookup-pair :
      (k : Text)
      → Dict.lookup k with_pair ≡ (if not skip && j == k then some v else Dict.lookup k target)
  lookup-pair k = ground (arith, Dict.lookup-insert k j v target)

-- The last pair of a key wins, and pairs that are left out do not count.
lookup-expanded :
    (key : Text) (minted : Minted) (k : Text)
    → Dict.lookup k (Dict.put_all [] (expand_minted key minted)) ≡ (
        if not (trim_space minted.url == []) && key == k
        then some minted.url
        else if not (minted.access_key_id == []) && key ++ text "_ACCESS_KEY_ID" == k
        then some minted.access_key_id
        else if not (minted.session_token == []) && key ++ text "_SESSION_TOKEN" == k
        then some minted.session_token
        else if key ++ text "_PASSWORD" == k
        then some minted.password
        else if key ++ text "_USERNAME" == k
        then some minted.username
        else none)
unfolding expand_minted Dict.put_all
lookup-expanded key minted k = simp (
  put_all-pair,
  put_all-pair_end,
  lookup-pair,
  Dict.lookup-insert,
  Dict.lookup-nil {K = Text} {V = Text},
)

-- Every pair is read back under its own key: the user name and the password always, the session
-- token, the access key and the URL where they are not empty (the URL: not blank), and no pair
-- hides another.
pub lookup-expand_minted :
    (key : Text) (minted : Minted)
    → (Dict.lookup (key ++ text "_USERNAME") (Dict.put_all [] (expand_minted key minted))
        ≡ some minted.username)
      × (Dict.lookup (key ++ text "_PASSWORD") (Dict.put_all [] (expand_minted key minted))
          ≡ some minted.password)
      × (Dict.lookup (key ++ text "_SESSION_TOKEN") (Dict.put_all [] (expand_minted key minted))
          ≡ (if minted.session_token == [] then none else some minted.session_token))
      × (Dict.lookup (key ++ text "_ACCESS_KEY_ID") (Dict.put_all [] (expand_minted key minted))
          ≡ (if minted.access_key_id == [] then none else some minted.access_key_id))
      × (Dict.lookup key (Dict.put_all [] (expand_minted key minted))
          ≡ (if trim_space minted.url == [] then none else some minted.url))
unfolding text text_eq
lookup-expand_minted key minted =
    simp (lookup-expanded, ==-append, ==-append_end, ==-append_start) (ground arith)
