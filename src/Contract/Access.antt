-- ===== src/Contract/Access.antt =====
-- What the contracts use of AccessControl of OpenZeppelin, and how calls revert.
use ocn_registry_v.Base.{
  ◌≡◌, Bool, true, false, ◌&&◌, some, [], ◌∷◌, ◌==◌, numbers_eq, if◌then◌else◌,
}
use ocn_registry_v.Text.{Text, codes}
use ocn_registry_v.Client.Failures.{plain, Failure, new_error}
use ocn_registry_v.Client.Wrapper.{Outcome, done, failed}

-- The roles of AccessControl, whose admin role is the default one.
pub record Roles : Type 1 where
  pub Held : Type 0
  pub nobody : Held
  pub has_role : Text → Text → Held → Bool
  pub grant : Text → Text → Held → Held
  pub revoke : Text → Text → Held → Held
  pub has_role-nobody : (role account : Text) → has_role role account nobody ≡ false
  pub has_role-grant :
      (r a role account : Text) (h : Held)
      → has_role role account (grant r a h)
        ≡ (if role == r && account == a then true else has_role role account h)
  pub has_role-revoke :
      (r a role account : Text) (h : Held)
      → has_role role account (revoke r a h)
        ≡ (if role == r && account == a then false else has_role role account h)

abbrev pub default_admin_role : Text
default_admin_role = codes "0x0000000000000000000000000000000000000000000000000000000000000000"

-- `revert Name()`, as ethers reports it, and a `revert` with a string.
abbrev pub thrown : Text → Failure
thrown name = record (new_error (codes "execution reverted")) {
  revert = some (record { name = name; args = [] });
}

-- `onlyRole` of AccessControl
abbrev pub unauthorized : Text → Text → Failure
unauthorized account role = record (new_error (codes "execution reverted")) {
  revert = some (record {
    name = codes "AccessControlUnauthorizedAccount";
    args = plain account ∷ plain role ∷ [];
  });
}

abbrev pub thrown_string : Text → Failure
thrown_string reason = record (new_error (codes "execution reverted")) { reason = some reason }

-- `if (!b) revert …`
abbrev pub require : Bool → Failure → Outcome (Unit {0})
require b e = if b then done tt else failed e
