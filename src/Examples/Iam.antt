-- ===== src/Examples/Iam.antt =====
-- A revocation at a concrete IAM, which has one user: its keys, whether it has the policy of the
-- lease, and whether it is there.
use kryptic_k8s_operator.Base.{
  ◌≡◌, refl, Bool, true, false, ◌&&◌, not, List, [], ◌∷◌, Text, text, text_eq, arith, if◌then◌else◌,
  is_empty, drop, ℕ_discrete,
}
use kryptic_k8s_operator.Strings.Find.{rune_width}
use kryptic_k8s_operator.Strings.Fold.{to_lower, equal_fold, same_letter, ascii_of}
use kryptic_k8s_operator.Strings.{to_lower_byte}
use kryptic_k8s_operator.Errors.{plain, ok, err}
use kryptic_k8s_operator.Dynsecret.Awsiam.{
  Aws, aws_config, auth_method_of, aws_revoke, is_temporary_kind, needs_no_revoke,
}
use kryptic_k8s_operator.Dynsecret.Awsiam.Succeeds.{Iam, aws_revoke-ok}
use kryptic_k8s_operator.Examples.Drivers.{some_keys, no_such, work}

abbrev OneUser : Type 0
OneUser = List Text × Bool × Bool

abbrev one_user : Aws OneUser
one_user = record {
  AwsConfig = Text;
  load_config = λ region keys s. (ok region, s);
  assume_role = λ aws input s. (ok some_keys, s);
  get_session_token = λ aws duration s. (ok some_keys, s);
  create_user = λ aws input s. (ok tt, ([], false, true));
  put_user_policy = λ aws name policy document s. (ok tt, (s.0, true, s.2));
  create_access_key = λ aws name s. (ok some_keys, (text "AKIA" ∷ s.0, s.1, s.2));
  list_access_keys = λ aws name s. (if s.2 then ok s.0 else err (plain (text "NoSuchEntity")), s);
  delete_access_key = λ aws name key s. (ok tt, (drop 1 s.0, s.1, s.2));
  delete_user_policy = λ aws name policy s. (ok tt, (s.0, false, s.2));
  delete_user = λ aws name s. (
    if is_empty s.0 && not s.1 then ok tt else err (plain (text "DeleteConflict")),
    (s.0, s.1, false),
  );
  is_no_such_entity = no_such;
  simple_fold = λ r q. false;
}

no_user_is : no_such (plain (text "NoSuchEntity")) ≡ true
unfolding text_eq text ℕ_discrete
no_user_is = refl

one_user-Iam : Iam one_user
one_user-Iam = record {
  is_there = λ s name. s.2;
  keys = λ s name. s.0;
  has_policy = λ s name. s.1;
  no_user = plain (text "NoSuchEntity");
  no_user_is = no_user_is;
  list_found = λ aws name s there. rw there refl;
  list_missing = λ aws name s missing. rw missing refl;
  key_deleted = λ aws name key rest s listed. (ground arith, refl);
  policy_deleted = λ aws name s. (refl, refl, refl);
  user_deleted = λ aws name s there no_keys no_policy. ground arith;
}

-- Two keys and the policy.
abbrev leased : OneUser
leased = (text "AKIA" ∷ text "AKIB" ∷ [], true, true)

configured : (aws_config one_user work.config leased).0 ≡ ok (text "us-east-1")
unfolding aws_config auth_method_of to_lower text_eq text ℕ_discrete
configured = refl

aws_revoke-ok_example : (aws_revoke one_user work leased).0 ≡ ok tt
aws_revoke-ok_example =
    aws_revoke-ok one_user one_user-Iam work leased (text "us-east-1") configured

-- `sts` with the long s, U+017F: it is minted as a user, and nothing is done to revoke it.
abbrev long_sts : Text
long_sts = 0xC5 ∷ 0xBF ∷ text "ts"

minted_as_user : is_temporary_kind (to_lower long_sts) ≡ false
unfolding is_temporary_kind to_lower to_lower_byte text text_eq ℕ_discrete
minted_as_user = refl

not_revoked : needs_no_revoke one_user.simple_fold long_sts ≡ true
unfolding needs_no_revoke equal_fold same_letter ascii_of to_lower_byte rune_width text text_eq
    ℕ_discrete
not_revoked = refl
