-- ===== src/Contract/Certified.antt =====
-- What it takes for the validator to accept the roles of a party.
use ocn_registry_v.Base.{
  ◌≡◌, ◌≢◌, refl, Option, some, none, sym, ap, ◌∙◌, arith, ℕ, ◌+◌, ◌≤◌, Bool, true, false, ◌⊎◌, inl,
  inr, Bool-cases, List, [], ◌∷◌, ◌==◌, nat_eq, numbers_eq, ltb, map, if◌then◌else◌,
}
use mathlib.Core.Path.{subst}
use ocn_registry_v.Base.Lists.{length, All}
use ocn_registry_v.Text.{Text, codes}
use ocn_registry_v.Client.Wrapper.{Outcome, done, failed, ◌>=>◌}
use ocn_registry_v.Client.Types.{RoleDetails, zero_address}
use ocn_registry_v.Client.Outcomes.{bind_done, if_done, done_inj}
use ocn_registry_v.Contract.Validator.{
  Certificates, emsp, cpo, if_allowed, Verified, owner_or, verify_certificate, check_oracle,
  check_role, check_roles, validate_registration,
}

pub on_branches :
    {P : Type 0} {x y z : Outcome Verified}
    → (a b : Bool) (v : Verified) → (x ≡ done v → P)
    → (y ≡ done v → P)
    → (z ≡ done v → P)
    → (if a then x else if b then y else z) ≡ done v
    → P
on_branches true b v f g k h = f h
on_branches false true v f g k h = g h
on_branches false false v f g k h = k h

equal_of : (a b : Text) → (a == b) ≡ true → a ≡ b
equal_of a b h = ground (arith, h)

chosen :
    (z before found : Text)
    → ((if before == z then found else before) == found) ≡ true
    → ((if before == z then found else before) ≡ found) × ((before ≡ z) ⊎ (before ≡ found))
chosen z before found same = (
  equal_of _ found same,
  elim (Bool-cases (before == z)) [
    | inl first ↦ inl (equal_of before z first)
    | inr later ↦ inr (ground (arith, same, later))
  ],
)

earlier :
    (before now owner : Text)
    → (before ≡ zero_address) ⊎ (before ≡ now)
    → (now ≡ zero_address) ⊎ (now ≡ owner)
    → (before ≡ zero_address) ⊎ (before ≡ owner)
earlier before now owner (inl zero) k = inl zero
earlier before now owner (inr same) (inl zero) = inl (same ∙ zero)
earlier before now owner (inr same) (inr later) = inr (same ∙ later)

-- The owner that a round leaves is the certificate's, and so was the one before it, if there was one.
owner_or-cases :
    (before found : Text)
    → (owner_or before found == found) ≡ true
    → (owner_or before found ≡ found) × ((before ≡ zero_address) ⊎ (before ≡ found))
owner_or-cases before found same = chosen zero_address before found same

module _ (C : Certificates) where
  -- What the certificate verifier said of a role: an EMSP (1) has its certificates verified by `verifyEMP`, a CPO (0)
  -- by `verifyCPO`, and any other role by `verifyOther`.
  pub data IsVerified (r : RoleDetails) (v : Verified) : Type 0 where
    as_emsp : r.role ≡ 1 → C.verify_emp r.certificate_data r.signature ≡ done v → IsVerified r v
    as_cpo : r.role ≡ 0 → C.verify_cpo r.certificate_data r.signature ≡ done v → IsVerified r v
    as_other :
        r.role ≢ 1
        → r.role ≢ 0
        → C.verify_other r.certificate_data r.signature ≡ done v
        → IsVerified r v

  -- A certificate that was verified, by a verifier that is allowed, as the given owner's; the oracle of the role,
  -- if there is one, knows the provider by the very identifier of the certificate.
  pub record IsCertified (owner : Text) (r : RoleDetails) : Type 0 where
    pub verified : Verified
    pub holds : IsVerified r verified
    pub allowed : C.is_allowed_verifier verified.verifier ≡ true
    pub active :
        (oracle : Text → Outcome Text)
        → C.role_oracle r.role ≡ some oracle
        → oracle verified.identifier ≡ done verified.identifier
    pub owned : (verified.owner ≡ zero_address) ⊎ (verified.owner ≡ owner)

  if_allowed_verified :
      (reason : Text) (m : Outcome Verified) (v : Verified)
      → (m >=> if_allowed C reason) ≡ done v
      → m ≡ done v
  if_allowed_verified reason (failed e) v h = absurd (cc h)
  if_allowed_verified reason (done u) v h =
      (if_done (C.is_allowed_verifier u.verifier) (done u) _ v h).1

  some_inj : (f g : Text → Outcome Text) → some f ≡ some g → f ≡ g
  some_inj f g h = ap (λ o. elim o [ none ↦ f | some x ↦ x ]) h

  check_oracle-active :
      (o : Option (Text → Outcome Text)) (role : ℕ) (identifier : Text)
      → check_oracle C o role identifier ≡ done tt
      → (oracle : Text → Outcome Text) → o ≡ some oracle
      → oracle identifier ≡ done identifier
  unfolding check_oracle
  check_oracle-active none role identifier h oracle is = absurd (cc is)
  check_oracle-active (some asked) role identifier h oracle is =
      let found = bind_done (asked identifier) _ tt h in
      let same = if_done (identifier == found.0) _ _ tt found.1.1 in
      ap (λ f. f identifier) (sym (some_inj asked oracle is))
      ∙ found.1.0
      ∙ ap done (sym (equal_of identifier found.0 same.0))

  if_allowed_done :
      (reason : Text) (m : Outcome Verified) (v : Verified)
      → (m >=> if_allowed C reason) ≡ done v
      → C.is_allowed_verifier v.verifier ≡ true
  if_allowed_done reason (failed e) v h = absurd (cc h)
  if_allowed_done reason (done u) v h =
      let found : (C.is_allowed_verifier u.verifier ≡ true) × (done u ≡ done v) =
        if_done (C.is_allowed_verifier u.verifier) (done u) _ v h in
      subst (λ x. C.is_allowed_verifier x.verifier ≡ true) (done_inj u v found.1) found.0

  verify_certificate-allowed :
      (r : RoleDetails) (v : Verified)
      → verify_certificate C r ≡ done v
      → C.is_allowed_verifier v.verifier ≡ true
  unfolding verify_certificate
  verify_certificate-allowed r v h =
      on_branches (r.role == emsp) (r.role == cpo) v (if_allowed_done _ _ v) (if_allowed_done _ _ v)
        (if_allowed_done _ _ v) h

  verify_certificate-IsVerified :
      (r : RoleDetails) (v : Verified) → verify_certificate C r ≡ done v → IsVerified r v
  unfolding verify_certificate
  verify_certificate-IsVerified r v h = by_role (r.role == emsp) (r.role == cpo) refl refl h
    where
      by_role :
          (a b : Bool)
          → (r.role == emsp) ≡ a
          → (r.role == cpo) ≡ b
          → (if a
              then C.verify_emp r.certificate_data r.signature
                >=> if_allowed C (codes "Invalid EMP certificate")
              else if b
              then C.verify_cpo r.certificate_data r.signature
                >=> if_allowed C (codes "Invalid CPO certificate")
              else C.verify_other r.certificate_data r.signature
                >=> if_allowed C (codes "Invalid Other certificate"))
            ≡ done v
          → IsVerified r v
      by_role true b one other k = as_emsp (ground (arith, one)) (if_allowed_verified _ _ v k)
      by_role false true one other k = as_cpo (ground (arith, other)) (if_allowed_verified _ _ v k)
      by_role false false one other k =
          as_other (λ e. ground (arith, one, e)) (λ e. ground (arith, other, e))
            (if_allowed_verified _ _ v k)

  check_role-IsCertified :
      (r : RoleDetails) (before owner : Text)
      → check_role C r before ≡ done owner
      → IsCertified owner r × ((before ≡ zero_address) ⊎ (before ≡ owner))
  unfolding check_role
  check_role-IsCertified r before owner h =
      let found = bind_done (verify_certificate C r) _ owner h in
      let same = if_done (owner_or before found.0.owner == found.0.owner) _ _ owner found.1.1 in
      let active =
        bind_done (check_oracle C (C.role_oracle r.role) r.role found.0.identifier) _ owner
          same.1 in
      let final = owner_or-cases before found.0.owner same.0 in
      let now : found.0.owner ≡ owner = sym final.0 ∙ done_inj _ owner active.1.1 in
      (
        record {
          verified = found.0;
          holds = verify_certificate-IsVerified r found.0 found.1.0;
          allowed = verify_certificate-allowed r found.0 found.1.0;
          active = check_oracle-active (C.role_oracle r.role) r.role found.0.identifier active.1.0;
          owned = inr now;
        },
        subst (λ x. (before ≡ zero_address) ⊎ (before ≡ x)) now final.1,
      )

  -- A certificate of an owner that may still be missing is one of the last owner too.
  IsCertified-later :
      (r : RoleDetails) (before owner : Text)
      → (before ≡ zero_address) ⊎ (before ≡ owner)
      → IsCertified before r
      → IsCertified owner r
  IsCertified-later r before owner (inr same) c = subst (λ x. IsCertified x r) same c
  IsCertified-later r before owner (inl none_yet) c = record {
    verified = c.verified;
    holds = c.holds;
    allowed = c.allowed;
    active = c.active;
    owned = inl (elim c.owned [ inl zero ↦ zero | inr same ↦ same ∙ none_yet ]);
  }

  check_roles-IsCertified :
      (i : ℕ) (roles : List RoleDetails) (before owner : Text) (found : List ℕ)
      → check_roles C i roles before ≡ done (owner, found)
      → i ≤ 255
      → ((before ≡ zero_address) ⊎ (before ≡ owner))
        × (i + length roles ≤ 255)
        × (found ≡ map (λ r. r.role) roles)
        × All (IsCertified owner) roles
  unfolding check_roles
  check_roles-IsCertified i [] before owner found h bound =
      (inr (cc h), omega (arith, bound), cc h, tt)
  check_roles-IsCertified i (r ∷ roles) before owner found h bound =
      let first = bind_done (check_role C r before) _ (owner, found) h in
      let within = if_done (ltb i 255) _ _ (owner, found) first.1.1 in
      let later = bind_done (check_roles C (i + 1) roles first.0) _ (owner, found) within.1 in
      let here = check_role-IsCertified r before first.0 first.1.0 in
      let same = done_inj (later.0.0, r.role ∷ later.0.1) (owner, found) later.1.1 in
      let rest =
        check_roles-IsCertified (i + 1) roles first.0 owner later.0.1
          (later.1.0 ∙ ap (λ o. done (o, later.0.1)) (ap (λ p. p.0) same))
          (ground (arith, within.0)) in
      (
        earlier before first.0 owner here.1 rest.0,
        omega (arith, rest.1),
        sym (ap (λ p. p.1) same) ∙ ap (λ roles'. r.role ∷ roles') rest.2,
        (IsCertified-later r first.0 owner rest.0 here.0, rest.3),
      )

  -- If the validator accepts the roles of a party, there are at most 255 of them; the roles that it gives
  -- back are the ones that were asked for, in their order; and for each of them the certificate
  -- was verified, by `verifyEMP` for an EMSP, by `verifyCPO` for a CPO and by `verifyOther` for any other role,
  -- and by a verifier that is allowed; the oracle of the role, if it has one, answers for the certificate's identifier
  -- with that very identifier; and the certificate's owner is the owner that is returned, or the zero address.
  pub validate_registration-IsCertified :
      (roles : List RoleDetails) (owner : Text) (found : List ℕ)
      → validate_registration C roles ≡ done (owner, found)
      → (length roles ≤ 255) × (found ≡ map (λ r. r.role) roles) × All (IsCertified owner) roles
  unfolding validate_registration
  validate_registration-IsCertified roles owner found h =
      let c = check_roles-IsCertified 0 roles zero_address owner found h (omega arith) in
      (omega (arith, c.1), c.2, c.3)
