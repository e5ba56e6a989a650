-- ===== src/Memory/Parts.antt =====
-- The copies that api/v1alpha1/zz_generated.deepcopy.go makes of slices and specs.
use mailu_operator.Common.{◌≡◌, refl, sym, ap, arith, Option, none, some, List, [], ◌∷◌, String}
use mailu_operator.Resource.{Condition}
use mailu_operator.Resource.Specs.{
  DomainSpecOf, AliasSpecOf, UserSpecOf, DomainSpec, AliasSpec, UserSpec,
}
use mailu_operator.Memory.{Heap, Slice, IsCopied, Copies}
use mailu_operator.Memory.Copies.{IsCopied-whole, IsCopied-refl}
use mailu_operator.Memory.DeepCopy.{copy_strings, copy_conditions, copy_condition_slice}
use mailu_operator.Memory.DeepCopy.Domain.{domain_spec_deep_copy_into}
use mailu_operator.Memory.DeepCopy.Alias.{alias_spec_deep_copy_into}
use mailu_operator.Memory.DeepCopy.User.{user_spec_deep_copy_into}

copy_conditions_lem :
    (copy_condition : Condition → Condition)
    → ((c : Condition) → copy_condition c ≡ c)
    → (l : List Condition) → copy_conditions copy_condition l ≡ l
unfolding copy_conditions
copy_conditions_lem copy_condition same [] = refl
copy_conditions_lem copy_condition same (c ∷ l) =
    rw (same c, copy_conditions_lem copy_condition same l) refl

-- The spec with its slice as a value.
abbrev pub domain_spec_value : DomainSpecOf Slice → Option (List String) → DomainSpec
domain_spec_value spec l = record {
  name = spec.name;
  comment = spec.comment;
  max_users = spec.max_users;
  max_aliases = spec.max_aliases;
  max_quota_bytes = spec.max_quota_bytes;
  signup_enabled = spec.signup_enabled;
  alternatives = l;
}

-- The spec with its slice as a value.
abbrev pub alias_spec_value : AliasSpecOf Slice → Option (List String) → AliasSpec
alias_spec_value spec l = record {
  name = spec.name;
  domain = spec.domain;
  comment = spec.comment;
  destination = l;
  wildcard = spec.wildcard;
}

-- The spec with its slice as a value.
abbrev pub user_spec_value : UserSpecOf Slice → Option (List String) → UserSpec
user_spec_value spec l = record {
  name = spec.name;
  domain = spec.domain;
  allow_spoofing = spec.allow_spoofing;
  change_password = spec.change_password;
  comment = spec.comment;
  displayed_name = spec.displayed_name;
  enabled = spec.enabled;
  enable_imap = spec.enable_imap;
  enable_pop = spec.enable_pop;
  forward_enabled = spec.forward_enabled;
  forward_destination = l;
  forward_keep = spec.forward_keep;
  global_admin = spec.global_admin;
  password_secret = spec.password_secret;
  password_key = spec.password_key;
  quota_bytes = spec.quota_bytes;
  raw_password = spec.raw_password;
  reply_enabled = spec.reply_enabled;
  reply_subject = spec.reply_subject;
  reply_body = spec.reply_body;
  reply_start_date = spec.reply_start_date;
  reply_end_date = spec.reply_end_date;
  spam_enabled = spec.spam_enabled;
  spam_mark_as_read = spec.spam_mark_as_read;
  spam_threshold = spec.spam_threshold;
}

module _ {I : Type 0} where
  abbrev pub read_strings : Heap I → Slice → Option (List String)
  read_strings h none = none
  read_strings h (some r) = some (h.strings r)

  abbrev pub read_conditions : Heap I → Slice → Option (List Condition)
  read_conditions h none = none
  read_conditions h (some r) = some (h.conditions r)

  pub copy_strings-IsCopied :
      (x : Slice) (h : Heap I) → IsCopied read_strings x h (copy_strings x h).0 (copy_strings x h).1
  unfolding copy_strings
  copy_strings-IsCopied none h = IsCopied-refl read_strings none h (λ g agree. refl)
  copy_strings-IsCopied (some r) h = record {
    grows = omega arith;
    keeps = record {
      same_strings = λ q u v. ground arith;
      same_conditions = λ q u v. refl;
      same_items = λ q u v. refl;
    };
    reads_same = ground arith;
    is_new = λ g agree. ap some (sym (agree.same_strings h.next (omega arith) (omega arith)));
  }

  pub copy_condition_slice-IsCopied :
      (copy_condition : Condition → Condition)
      → ((c : Condition) → copy_condition c ≡ c)
      → (x : Slice) (h : Heap I)
      → IsCopied read_conditions x h
          (copy_condition_slice copy_condition x h).0
          (copy_condition_slice copy_condition x h).1
  unfolding copy_condition_slice
  copy_condition_slice-IsCopied copy_condition same none h =
      IsCopied-refl read_conditions none h (λ g agree. refl)
  copy_condition_slice-IsCopied copy_condition same (some r) h = record {
    grows = omega arith;
    keeps = record {
      same_strings = λ q u v. refl;
      same_conditions = λ q u v. ground arith;
      same_items = λ q u v. refl;
    };
    reads_same = ground (arith, copy_conditions_lem copy_condition same (h.conditions r));
    is_new = λ g agree. ap some (sym (agree.same_conditions h.next (omega arith) (omega arith)));
  }

  abbrev pub read_domain_spec : Heap I → DomainSpecOf Slice → DomainSpec
  read_domain_spec h spec = domain_spec_value spec (read_strings h spec.alternatives)

  pub domain_spec-Copies : Copies read_domain_spec domain_spec_deep_copy_into
  unfolding domain_spec_deep_copy_into
  domain_spec-Copies x h within =
      let (p, k) = copy_strings x.alternatives h in
      IsCopied-whole read_strings read_domain_spec (domain_spec_value x) x.alternatives p x
        (record x { alternatives = p }) h k (λ g. refl) (λ g. refl)
        (copy_strings-IsCopied x.alternatives h)

  abbrev pub read_alias_spec : Heap I → AliasSpecOf Slice → AliasSpec
  read_alias_spec h spec = alias_spec_value spec (read_strings h spec.destination)

  pub alias_spec-Copies : Copies read_alias_spec alias_spec_deep_copy_into
  unfolding alias_spec_deep_copy_into
  alias_spec-Copies x h within =
      let (p, k) = copy_strings x.destination h in
      IsCopied-whole read_strings read_alias_spec (alias_spec_value x) x.destination p x
        (record x { destination = p }) h k (λ g. refl) (λ g. refl)
        (copy_strings-IsCopied x.destination h)

  abbrev pub read_user_spec : Heap I → UserSpecOf Slice → UserSpec
  read_user_spec h spec = user_spec_value spec (read_strings h spec.forward_destination)

  pub user_spec-Copies : Copies read_user_spec user_spec_deep_copy_into
  unfolding user_spec_deep_copy_into
  user_spec-Copies x h within =
      let (p, k) = copy_strings x.forward_destination h in
      IsCopied-whole read_strings read_user_spec (user_spec_value x) x.forward_destination p x
        (record x { forward_destination = p }) h k (λ g. refl) (λ g. refl)
        (copy_strings-IsCopied x.forward_destination h)
