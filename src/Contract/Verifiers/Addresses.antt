-- ===== src/Contract/Verifiers/Addresses.antt =====
-- The texts of ALLOWED_VERIFIERS as ethers reads them (deploy/09_deployOcnRegistry.ts).
use ocn_registry_v.Base.{
  ◌≡◌, refl, sym, ap, ◌∙◌, Bool, true, ◌&&◌, inl, inr, ◌⊎◌, List, [], ◌∷◌, ◌++◌, nat_eq, numbers_eq,
}
use ocn_registry_v.Text.{Text}
use ocn_registry_v.Client.Failures.{Failure}
use ocn_registry_v.Client.Wrapper.{Outcome, done, failed, is_done}

pub readable_cases :
    {A : Type 0} (o : Outcome A) → ((e : Failure) × (o ≡ failed e)) ⊎ ((a : A) × (o ≡ done a))
readable_cases (failed e) = inl (e, refl)
readable_cases (done a) = inr (a, refl)

-- What ethers makes of each text that is given for an address: the address with checksum, or an error for a text
-- that it cannot read.
module _ (encode : Text → Outcome Text) where
  abbrev pub are_readable : List Text → Bool
  are_readable [] = true
  are_readable (raw ∷ raws) = is_done (encode raw) && are_readable raws

  -- The addresses of the texts that can be read.
  unfoldable pub addresses_of : List Text → List Text
  addresses_of [] = []
  addresses_of (raw ∷ raws) = elim (encode raw) [
    | failed e ↦ addresses_of raws
    | done address ↦ address ∷ addresses_of raws
  ]

  pub addresses_of-read :
      (raws : List Text) {raw address : Text}
      → encode raw ≡ done address
      → addresses_of (raw ∷ raws) ≡ address ∷ addresses_of raws
  unfolding addresses_of
  addresses_of-read raws is = rw (addresses_of, is) refl

  pub addresses_of-unread :
      (raws : List Text) {raw : Text} {e : Failure}
      → encode raw ≡ failed e
      → addresses_of (raw ∷ raws) ≡ addresses_of raws
  unfolding addresses_of
  addresses_of-unread raws is = rw (addresses_of, is) refl

  pub addresses_of-append :
      (raws : List Text) (raw address : Text)
      → encode raw ≡ done address
      → addresses_of (raws ++ raw ∷ []) ≡ addresses_of raws ++ address ∷ []
  unfolding addresses_of
  addresses_of-append [] raw address is = addresses_of-read [] is
  addresses_of-append (first ∷ raws) raw address is =
      let rest = addresses_of-append raws raw address is in
      elim (readable_cases (encode first)) [
        | inl (e, unread) ↦
            addresses_of-unread (raws ++ raw ∷ []) unread
            ∙ rest
            ∙ ap (λ xs. xs ++ address ∷ []) (sym (addresses_of-unread raws unread))
        | inr (a, read) ↦
            addresses_of-read (raws ++ raw ∷ []) read
            ∙ ap (λ xs. a ∷ xs) rest
            ∙ ap (λ xs. xs ++ address ∷ []) (sym (addresses_of-read raws read))
      ]
