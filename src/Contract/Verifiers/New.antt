-- ===== src/Contract/Verifiers/New.antt =====
-- Whether a list of verifiers can be allowed one after the other (setVerifier of
-- contracts/PartyRegistrationValidator.sol).
use ocn_registry_v.Base.{
  ◌≡◌, refl, ap, ◌∙◌, arith, Bool, true, false, not, ◌&&◌, ◌||◌, List, [], ◌∷◌, ◌==◌, nat_eq,
  numbers_eq, contains,
}
use ocn_registry_v.Text.{Text}
use ocn_registry_v.Client.Types.{zero_address}
use ocn_registry_v.Contract.State.{set}

-- Whether each verifier may be allowed, where some are allowed already: it is not the zero address, and
-- was not there before.
abbrev pub all_new : (Text → Bool) → List Text → Bool
all_new allowed [] = true
all_new allowed (verifier ∷ verifiers) =
    not (verifier == zero_address)
    && not (allowed verifier)
    && all_new (set verifier true allowed) verifiers

abbrev pub is_distinct : List Text → Bool
is_distinct [] = true
is_distinct (a ∷ xs) = not (contains xs a) && is_distinct xs

abbrev pub none_allowed : (Text → Bool) → List Text → Bool
none_allowed allowed [] = true
none_allowed allowed (a ∷ xs) = not (allowed a) && none_allowed allowed xs

none_allowed-set :
    (a : Text) (allowed : Text → Bool) (xs : List Text)
    → none_allowed (set a true allowed) xs ≡ (not (contains xs a) && none_allowed allowed xs)
unfolding set
none_allowed-set a allowed [] = refl
none_allowed-set a allowed (x ∷ xs) = ground (arith, none_allowed-set a allowed xs)

==_sym : (a b : Text) → (a == b) ≡ (b == a)
==_sym a b = ground arith

rearranged :
    (zero old there distinct again none_of : Bool)
    → (not zero && not old && (not there && distinct && (not again && none_of)))
      ≡ (not (zero || there) && (not again && distinct) && (not old && none_of))
rearranged zero old there distinct again none_of = ground arith

pub all_new_lem :
    (allowed : Text → Bool) (xs : List Text)
    → all_new allowed xs
      ≡ (not (contains xs zero_address) && is_distinct xs && none_allowed allowed xs)
all_new_lem allowed [] = refl
all_new_lem allowed (x ∷ xs) =
    ap (λ r. not (x == zero_address) && not (allowed x) && r)
      (all_new_lem (set x true allowed) xs
        ∙ ap (λ n. not (contains xs zero_address) && is_distinct xs && n)
            (none_allowed-set x allowed xs))
    ∙ rearranged (x == zero_address) (allowed x) (contains xs zero_address) (is_distinct xs)
        (contains xs x) (none_allowed allowed xs)
    ∙ ap
        (λ t.
          not (t || contains xs zero_address)
          && (not (contains xs x) && is_distinct xs)
          && (not (allowed x) && none_allowed allowed xs))
        (==_sym x zero_address)

pub none_allowed_at_first : (xs : List Text) → none_allowed (λ _. false) xs ≡ true
none_allowed_at_first [] = refl
none_allowed_at_first (x ∷ xs) = none_allowed_at_first xs
