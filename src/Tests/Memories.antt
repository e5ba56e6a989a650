-- ===== src/Tests/Memories.antt =====
-- Copies of resources in a small memory, and writes after them.
use mailu_operator.Common.{ℕ, ◌≡◌, refl, arith, none, some, true, false, sym, [], ◌∷◌, String}
use mailu_operator.Resource.{Condition, condition_true}
use mailu_operator.Common.Int.{pos, negsuc}
use mailu_operator.Memory.{Heap, Slice, Agree, IsWithin, Copies, write}
use mailu_operator.Memory.DeepCopy.{Copy, copy_strings}
use mailu_operator.Memory.Copies.{IsCopied-refl}
use mailu_operator.Memory.Parts.{read_strings, copy_strings-IsCopied}
use mailu_operator.Memory.DeepCopy.Domain.{
  Domain, DomainList, domain_list_deep_copy_into, domain_list_deep_copy_object,
  domain_deep_copy_into, domain_deep_copy_object,
}
use mailu_operator.Memory.Independence.Domain.{
  read_domain, domain_copy_independent, read_domain_list, domain_list_copy_independent,
}
use mailu_operator.Memory.DeepCopy.User.{User, user_deep_copy_into, user_deep_copy_object}
use mailu_operator.Memory.Independence.User.{read_user, user_copy_independent}

-- A domain with its slice at address 0, its finalizers at 1 and its conditions at 2.
abbrev domain : Domain Slice
domain = record {
  type_meta = record { kind = "Domain"; api_version = "operator.mailu.io/v1alpha1" };
  object_meta = some 1;
  spec = record {
    name = "example.com";
    comment = "";
    max_users = pos 5;
    max_aliases = negsuc 0;
    max_quota_bytes = pos 0;
    signup_enabled = false;
    alternatives = some 0;
  };
  status = record { conditions = some 2 };
}

-- A user with its slice at address 0, its finalizers at 1 and its conditions at 2.
abbrev user : User Slice
user = record {
  type_meta = record { kind = "User"; api_version = "operator.mailu.io/v1alpha1" };
  object_meta = some 1;
  spec = record {
    name = "admin";
    domain = "example.com";
    allow_spoofing = false;
    change_password = true;
    comment = "";
    displayed_name = "Admin";
    enabled = true;
    enable_imap = true;
    enable_pop = true;
    forward_enabled = false;
    forward_destination = some 0;
    forward_keep = false;
    global_admin = false;
    password_secret = "mail";
    password_key = "password";
    quota_bytes = negsuc 0;
    raw_password = "";
    reply_enabled = false;
    reply_subject = "";
    reply_body = "";
    reply_start_date = "2024-06-01";
    reply_end_date = "";
    spam_enabled = true;
    spam_mark_as_read = true;
    spam_threshold = pos 80;
  };
  status = record { conditions = some 2 };
}

abbrev ready : Condition
ready = record {
  type = "DomainReady";
  status = condition_true;
  reason = "Created";
  message = "";
  last_transition_time = none;
}

-- Three arrays, and a list of one domain at address 3.
abbrev memory : Heap (Domain Slice)
memory = record {
  next = 4;
  strings = write (write (λ r. []) 0 ("example.org" ∷ [])) 1 ("operator.mailu.io/finalizer" ∷ []);
  conditions = write (λ r. []) 2 (ready ∷ []);
  items = write (λ r. []) 3 (domain ∷ []);
}

-- The metadata is its finalizers.
finalizers-Copies : Copies (read_strings {I = Domain Slice}) copy_strings
finalizers-Copies x h within = copy_strings-IsCopied x h

abbrev same_condition : Condition → Condition
same_condition c = c

-- All old arrays are overwritten.
abbrev old_lost : Heap (Domain Slice) → Heap (Domain Slice)
old_lost k = record k {
  strings = write (write k.strings 0 ("lost" ∷ [])) 1 [];
  conditions = write k.conditions 2 [];
  items = write k.items 3 [];
}

old_lost-Agree : (n : ℕ) (k : Heap (Domain Slice)) → Agree memory.next n k (old_lost k)
old_lost-Agree n k = record {
  same_strings = λ r u v. ground arith;
  same_conditions = λ r u v. ground arith;
  same_items = λ r u v. ground arith;
}

-- New arrays are overwritten.
abbrev new_lost : Heap (Domain Slice) → Heap (Domain Slice)
new_lost k = record k {
  strings = write (write k.strings 4 ("lost" ∷ [])) 5 [];
  conditions = write k.conditions 6 [];
  items = write k.items 7 [];
}

new_lost-Agree : (k : Heap (Domain Slice)) → Agree 0 memory.next k (new_lost k)
new_lost-Agree k = record {
  same_strings = λ r u v. ground arith;
  same_conditions = λ r u v. ground arith;
  same_items = λ r u v. ground arith;
}

abbrev domain_copied : Heap (Domain Slice)
domain_copied = (domain_deep_copy_into same_condition copy_strings domain memory).1

domain-IsWithin : IsWithin (read_domain read_strings) 0 memory.next memory domain
domain-IsWithin g agree =
    rw
      (
        sym (agree.same_strings 0 (omega arith) (omega arith)),
        sym (agree.same_strings 1 (omega arith) (omega arith)),
        sym (agree.same_conditions 2 (omega arith) (omega arith)),
      )
      refl

domain_copy_independent_example :
    (y : Domain Slice) × ((domain_deep_copy_object same_condition copy_strings
        (some domain)
        memory).0
      ≡ some y)
    × (read_domain read_strings (old_lost domain_copied) y ≡ read_domain read_strings memory domain)
    × (read_domain read_strings (new_lost domain_copied) domain
        ≡ read_domain read_strings memory domain)
domain_copy_independent_example =
    domain_copy_independent same_condition (λ c. refl) copy_strings read_strings finalizers-Copies
      domain memory (old_lost domain_copied) (new_lost domain_copied) domain-IsWithin
      (old_lost-Agree domain_copied.next domain_copied) (new_lost-Agree domain_copied)

abbrev user_copied : Heap (Domain Slice)
user_copied = (user_deep_copy_into same_condition copy_strings user memory).1

user-IsWithin : IsWithin (read_user read_strings) 0 memory.next memory user
user-IsWithin g agree =
    rw
      (
        sym (agree.same_strings 0 (omega arith) (omega arith)),
        sym (agree.same_strings 1 (omega arith) (omega arith)),
        sym (agree.same_conditions 2 (omega arith) (omega arith)),
      )
      refl

user_copy_independent_example :
    (y : User Slice) × ((user_deep_copy_object same_condition copy_strings (some user) memory).0
      ≡ some y)
    × (read_user read_strings (old_lost user_copied) y ≡ read_user read_strings memory user)
    × (read_user read_strings (new_lost user_copied) user ≡ read_user read_strings memory user)
user_copy_independent_example =
    user_copy_independent same_condition (λ c. refl) copy_strings read_strings finalizers-Copies
      user memory (old_lost user_copied) (new_lost user_copied) user-IsWithin
      (old_lost-Agree user_copied.next user_copied) (new_lost-Agree user_copied)

-- A list in version 7, which has no slices in its metadata.
abbrev domains : DomainList String
domains = record {
  type_meta = record { kind = "DomainList"; api_version = "operator.mailu.io/v1alpha1" };
  list_meta = "7";
  items = some 3;
}

abbrev copy_version : Copy (Domain Slice) String
copy_version v h = (v, h)

abbrev read_version : Heap (Domain Slice) → String → String
read_version h v = v

version-Copies : Copies read_version copy_version
version-Copies v h within = IsCopied-refl read_version v h (λ g agree. refl)

abbrev domains_copied : Heap (Domain Slice)
domains_copied =
    (domain_list_deep_copy_into same_condition copy_strings copy_version domains memory).1

domains-IsWithin :
    IsWithin (read_domain_list read_strings read_version) 0 memory.next memory domains
domains-IsWithin g agree =
    rw
      (
        sym (agree.same_items 3 (omega arith) (omega arith)),
        sym (agree.same_strings 0 (omega arith) (omega arith)),
        sym (agree.same_strings 1 (omega arith) (omega arith)),
        sym (agree.same_conditions 2 (omega arith) (omega arith)),
      )
      refl

domain_list_copy_independent_example :
    (y : DomainList String) × ((domain_list_deep_copy_object same_condition copy_strings
        copy_version
        (some domains)
        memory).0
      ≡ some y)
    × (read_domain_list read_strings read_version (old_lost domains_copied) y
        ≡ read_domain_list read_strings read_version memory domains)
    × (read_domain_list read_strings read_version (new_lost domains_copied) domains
        ≡ read_domain_list read_strings read_version memory domains)
domain_list_copy_independent_example =
    domain_list_copy_independent same_condition (λ c. refl) copy_strings read_strings
      finalizers-Copies copy_version read_version version-Copies domains memory
      (old_lost domains_copied) (new_lost domains_copied) (omega arith) domains-IsWithin
      (old_lost-Agree domains_copied.next domains_copied) (new_lost-Agree domains_copied)
