-- ===== src/Subgraph/Success.antt =====
-- What the script leaves behind where it succeeds.
use mathlib.Core.Path.{subst}
use ocn_registry_v.Base.{
  ◌≡◌, refl, ap, ◌∙◌, arith, ℕ, zero, suc, ◌<◌, String, Bool, true, false, Option, none, some, List,
  [], ◌∷◌, ltb, truthy, map, Bool-cases, inl, inr,
}
use ocn_registry_v.Base.Lists.{All}
use ocn_registry_v.Base.Exec.{Result, ok}
use ocn_registry_v.Subgraph.Update.{
  DeploymentData, DeploymentFile, DataSource, Values, or_number, text_or_empty, block_of,
  read_deployment, required, require, updates,
}
use ocn_registry_v.Subgraph.Script.{Files, choose_values, gather, main}
use ocn_registry_v.Subgraph.Pointed.{
  Returns, Returns-bind, ok_injective, AreGood, AreOnNetwork, update_all-IsOnNetwork,
}

abbrev pub source_names : List String
source_names =
    "OCN_Registry_OLI" ∷ "ERC1967Proxy" ∷ "EuroStableCoin" ∷ "OCNGovernor"
    ∷ "OCN_Certificate_Verifier" ∷ []

require-true : (b : Bool) (message : String) (u : Unit {0}) → require b message ≡ ok u → b ≡ true
require-true true message u e = refl
require-true false message u e = absurd (cc e)

or_number-pos : (n m : ℕ) → 0 < m → 0 < or_number n m
or_number-pos zero m h = h
or_number-pos (suc n) m h = omega arith

ltb-lt : (n : ℕ) → ltb 0 n ≡ true → 0 < n
ltb-lt n h = ground (arith, h)

address_or : String → Result (Option DeploymentData) → String
address_or a (ok (some d)) = d.address
address_or a _ = a

ok_some_injective :
    {c d : DeploymentData}
    → Path (Result (Option DeploymentData)) (ok (some c)) (ok (some d))
    → c.address ≡ d.address
unfolding address_or
ok_some_injective {c} e = ap (address_or c.address) e

read-truthy :
    (name : String) (file : Option DeploymentFile) (d : DeploymentData)
    → read_deployment name file ≡ ok (some d)
    → truthy d.address ≡ true
unfolding read_deployment
read-truthy name none d e = absurd (cc e)
read-truthy name (some file) d e = elim (Bool-cases (truthy (text_or_empty file.address))) [
  | inl full ↦ rw (← ok_some_injective (rw full at e)) full
  | inr blank ↦ absurd (cc (rw blank at e))
]

required-eq :
    (name network : String) (o : Option DeploymentData) (d : DeploymentData)
    → required name network o ≡ ok d
    → o ≡ some d
unfolding required
required-eq name network none d e = absurd (cc e)
required-eq name network (some c) d e = ap some (ok_injective e)

module _ (files : Files) (network stablecoin_override manifest_name manifest_path : String) where
  abbrev AreChosen : List (String × Values) → Type 0
  AreChosen values = All (AreGood network) values × (map (λ u. u.0) values ≡ source_names)

  updates-AreChosen :
      (r p g v : DeploymentData) (mock_erc20 euro_stable : Option DeploymentData)
      (stablecoin : String) (fallback : ℕ)
      → truthy r.address ≡ true
      → truthy p.address ≡ true
      → truthy g.address ≡ true
      → truthy v.address ≡ true
      → truthy stablecoin ≡ true
      → 0 < fallback
      → AreChosen (updates network r p g v mock_erc20 euro_stable stablecoin fallback)
  updates-AreChosen r p g v mock_erc20 euro_stable stablecoin fallback hr hp hg hv hs positive =
      let start = λ (n : ℕ). or_number-pos n fallback positive in
      (
        (
          (refl, hr, start r.block_number),
          (
            (refl, hp, start p.block_number),
            (
              (
                refl,
                hs,
                or_number-pos (block_of mock_erc20) _
                    (or_number-pos (block_of euro_stable) _ (start p.block_number)),
              ),
              ((refl, hg, start g.block_number), ((refl, hv, start v.block_number), tt)),
            ),
          ),
        ),
        refl,
      )

  choose_values-AreChosen :
      (r p g v : DeploymentData) (mock_erc20 euro_stable : Option DeploymentData)
      → truthy r.address ≡ true
      → truthy p.address ≡ true
      → truthy g.address ≡ true
      → truthy v.address ≡ true
      → Returns AreChosen (
          choose_values files network stablecoin_override manifest_name manifest_path r p g v
            mock_erc20 euro_stable)
  unfolding choose_values
  choose_values-AreChosen r p g v mock_erc20 euro_stable hr hp hg hv =
      Returns-bind {Q = AreChosen} _ _ λ u stable. Returns-bind {Q = AreChosen} _ _ λ u' positive.
        record {
          at = λ values e. subst AreChosen (ok_injective e) (
              updates-AreChosen r p g v mock_erc20 euro_stable _ _ hr hp hg hv
                (require-true _ _ u stable) (ltb-lt _ (require-true _ _ u' positive)));
        }

  gather-AreChosen :
      Returns AreChosen (gather files network stablecoin_override manifest_name manifest_path)
  unfolding gather
  gather-AreChosen = Returns-bind _ _ λ r er. Returns-bind _ _ λ p ep. Returns-bind _ _ λ g eg.
      Returns-bind _ _ λ v ev. Returns-bind _ _ λ mock_erc20 em. Returns-bind _ _ λ euro_stable ee.
        Returns-bind _ _ λ r' hr. Returns-bind _ _ λ p' hp. Returns-bind _ _ λ g' hg.
          Returns-bind _ _ λ v' hv.
            choose_values-AreChosen r' p' g' v' mock_erc20 euro_stable (full "OcnRegistry" er hr)
              (full "OcnPaymentManager" ep hp) (full "OcnGovernor" eg hg)
              (full "CertificateVerifier" ev hv)
    where
      full :
          (name : String) {o : Option DeploymentData} {d : DeploymentData}
          → read_deployment name (files.deployment name) ≡ ok o
          → required name network o ≡ ok d
          → truthy d.address ≡ true
      full name {o} {d} e h =
          read-truthy name (files.deployment name) d (e ∙ ap ok (required-eq name network o d h))

  -- If the script succeeds, then in the manifest that it writes each of the five data sources is on the
  -- network that was given, with an address that is not empty and a start block that is not 0.
  pub main-AreOnNetwork :
      (written : List DataSource)
      → main files network stablecoin_override manifest_name manifest_path ≡ ok written
      → AreOnNetwork network manifest_name written source_names
  unfolding main
  main-AreOnNetwork written h =
      (Returns-bind {Q = λ last. AreOnNetwork network manifest_name last source_names} _ _ λ u e.
          Returns-bind _ _ λ u' e'. Returns-bind _ _ λ values gathered.
            Returns-bind _ _ λ sources there. record {
              at = λ last k.
                  let (good, names) = gather-AreChosen.at values gathered in
                  subst (AreOnNetwork network manifest_name last) names
                    (update_all-IsOnNetwork network manifest_name values sources last good k);
            }).at
        written h
