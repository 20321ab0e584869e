-- ===== src/Deployment/Copies.antt =====
-- helper/copyDeploymentsToSrc.ts: the copy of a folder into another, with all folders in it. Fuel stands
-- for the depth of the recursion; without any left, there is no result.
use mathlib.Core.Path.{subst}
use ocn_registry_v.Base.{
  ◌∙◌, ◌≡◌, refl, arith, ℕ, zero, suc, ◌<◌, Bool, true, false, Option, none, some, List, [], ◌∷◌,
  ◌++◌, if◌then◌else◌,
}
use ocn_registry_v.Base.Lists.{All}
use ocn_registry_v.Text.{Text}
use ocn_registry_v.Client.Wrapper.{Outcome, done, failed}

pub data Action : Type 0 where
  folder_made : Text → Action
  file_copied : Text → Text → Action

-- The files, which may change with what was done before, the last action last. An entry is a name, with
-- whether it is a folder.
pub record Files : Type 0 where
  pub exists_sync : List Action → Text → Bool
  pub readdir_sync : List Action → Text → Outcome (List (Text × Bool))
  pub accept : List Action → Action → Outcome (Unit {0})
  pub path_join : Text → Text → Text

abbrev pub Copied : Type 0
Copied = Option (Outcome (Unit {0}) × List Action)

-- The rest of a copy, if the part before it has returned.
abbrev continue : (List Action → Copied) → Copied → Copied
continue f none = none
continue f (some (failed e, h)) = some (failed e, h)
continue f (some (done _, h)) = f h

module _ (F : Files) where
  abbrev perform : Action → List Action → Outcome (Unit {0}) × List Action
  perform a h = elim (F.accept h a) [ failed e ↦ (failed e, h) | done _ ↦ (done tt, h ++ a ∷ []) ]

  -- The loop, with the copy of a folder.
  pub copy_entries :
      (Text → Text → List Action → Copied) → Text → Text → List (Text × Bool) → List Action → Copied
  copy_entries copy source dest [] h = some (done tt, h)
  copy_entries copy source dest ((name, true) ∷ entries) h =
      continue (copy_entries copy source dest entries)
        (copy (F.path_join source name) (F.path_join dest name) h)
  copy_entries copy source dest ((name, false) ∷ entries) h =
      continue (copy_entries copy source dest entries)
        (some (perform (file_copied (F.path_join source name) (F.path_join dest name)) h))

  abbrev make_folder : Text → List Action → Outcome (Unit {0}) × List Action
  make_folder dest h = if F.exists_sync h dest then (done tt, h) else perform (folder_made dest) h

  abbrev with_entries :
      (List (Text × Bool) → List Action → Copied)
      → List Action
      → Outcome (List (Text × Bool))
      → Copied
  with_entries f h (done entries) = f entries h
  with_entries f h (failed e) = some (failed e, h)

  unfoldable pub copy_deployments : ℕ → Text → Text → List Action → Copied
  copy_deployments zero source dest h = none
  copy_deployments (suc fuel) source dest h =
      continue
        (λ t.
          with_entries (copy_entries (copy_deployments fuel) source dest) t
            (F.readdir_sync t source))
        (some (make_folder dest h))

  module _ (rank : Text → ℕ) where
    abbrev pub IsBelow : Text → Text × Bool → Type 0
    IsBelow source (name, true) = rank (F.path_join source name) < rank source
    IsBelow source (name, false) = Unit

    -- Folders lie below the folder that lists them.
    abbrev pub IsNested : Type 0
    IsNested =
        (h : List Action) (source : Text) (entries : List (Text × Bool))
        → F.readdir_sync h source ≡ done entries
        → All (IsBelow source) entries

    abbrev Returns : Copied → Type 0
    Returns c = (r : Outcome (Unit {0}) × List Action) × (c ≡ some r)

    continue-Returns :
        (f : List Action → Copied) (c : Copied)
        → Returns c
        → ((h : List Action) → Returns (f h))
        → Returns (continue f c)
    continue-Returns f none (r, e) k = absurd (cc e)
    continue-Returns f (some (failed e', h)) r k = (_, refl)
    continue-Returns f (some (done _, h)) r k = k h

    entries-Returns :
        (copy : Text → Text → List Action → Copied) (source dest : Text)
        → ((s d : Text) (h : List Action) → rank s < rank source → Returns (copy s d h))
        → (entries : List (Text × Bool)) (h : List Action) → All (IsBelow source) entries
        → Returns (copy_entries copy source dest entries h)
    unfolding copy_entries
    entries-Returns copy source dest k [] h b = (_, refl)
    entries-Returns copy source dest k ((name, true) ∷ entries) h (below, b) =
        continue-Returns (copy_entries copy source dest entries) _ (k _ _ h below)
          (λ t. entries-Returns copy source dest k entries t b)
    entries-Returns copy source dest k ((name, false) ∷ entries) h (_, b) =
        continue-Returns (copy_entries copy source dest entries) (some _) (_, refl)
          (λ t. entries-Returns copy source dest k entries t b)

    listed-Returns :
        (f : List (Text × Bool) → List Action → Copied) (h : List Action)
        (o : Outcome (List (Text × Bool)))
        → ((entries : List (Text × Bool)) → o ≡ done entries → Returns (f entries h))
        → Returns (with_entries f h o)
    listed-Returns f h (done entries) k = k entries refl
    listed-Returns f h (failed e) k = (_, refl)

    copy-Returns :
        IsNested
        → (fuel : ℕ) (source dest : Text) (h : List Action) → rank source < fuel
        → Returns (copy_deployments fuel source dest h)
    unfolding copy_deployments
    copy-Returns nested zero source dest h few = elim few [ ]
    copy-Returns nested (suc fuel) source dest h enough =
        continue-Returns _ (some (make_folder dest h)) (_, refl)
          λ t.
            listed-Returns (copy_entries (copy_deployments fuel) source dest) t
              (F.readdir_sync t source)
              λ entries listed.
                entries-Returns (copy_deployments fuel) source dest
                  (λ s d u below. copy-Returns nested fuel s d u (omega arith)) entries t
                  (nested t source entries listed)

    continue_same :
        (f g : List Action → Copied) (c d : Copied)
        → c ≡ d
        → ((h : List Action) → f h ≡ g h)
        → continue f c ≡ continue g d
    continue_same f g c d e k = subst (λ x. continue f c ≡ continue g x) e (on c)
      where
        on : (x : Copied) → continue f x ≡ continue g x
        on none = refl
        on (some (failed e', h)) = refl
        on (some (done _, h)) = k h

    entries_same :
        (copy other : Text → Text → List Action → Copied) (source dest : Text)
        → ((s d : Text) (h : List Action) → rank s < rank source → copy s d h ≡ other s d h)
        → (entries : List (Text × Bool)) (h : List Action) → All (IsBelow source) entries
        → copy_entries copy source dest entries h ≡ copy_entries other source dest entries h
    unfolding copy_entries
    entries_same copy other source dest k [] h b = refl
    entries_same copy other source dest k ((name, true) ∷ entries) h (below, b) =
        continue_same (copy_entries copy source dest entries) _ _ _ (k _ _ h below)
          (λ t. entries_same copy other source dest k entries t b)
    entries_same copy other source dest k ((name, false) ∷ entries) h (_, b) =
        continue_same (copy_entries copy source dest entries) _ (some _) _ refl
          (λ t. entries_same copy other source dest k entries t b)

    listed_same :
        (f g : List (Text × Bool) → List Action → Copied) (h : List Action)
        (o : Outcome (List (Text × Bool)))
        → ((entries : List (Text × Bool)) → o ≡ done entries → f entries h ≡ g entries h)
        → with_entries f h o ≡ with_entries g h o
    listed_same f g h (done entries) k = k entries refl
    listed_same f g h (failed e) k = refl

    copy_same :
        IsNested
        → (fuel more : ℕ) (source dest : Text) (h : List Action) → rank source < fuel
        → rank source < more
        → copy_deployments fuel source dest h ≡ copy_deployments more source dest h
    unfolding copy_deployments
    copy_same nested zero more source dest h few enough = elim few [ ]
    copy_same nested (suc fuel) zero source dest h enough few = elim few [ ]
    copy_same nested (suc fuel) (suc more) source dest h enough enough' =
        continue_same _ _ (some (make_folder dest h)) _ refl λ t.
          listed_same (copy_entries (copy_deployments fuel) source dest)
            (copy_entries (copy_deployments more) source dest) t (F.readdir_sync t source)
            λ entries listed.
              entries_same (copy_deployments fuel) (copy_deployments more) source dest
                (λ s d u below. copy_same nested fuel more s d u (omega arith) (omega arith))
                entries t (nested t source entries listed)

    -- The copy of a folder ends, with a result or an error, whatever the files answer, as long as folders are
    -- nested to a finite depth, also those that appear meanwhile: where each folder that is ever listed has a
    -- lower rank than the folder around it, fuel above the rank of the source is enough, and more fuel
    -- gives the same.
    pub copy_deployments_ends :
        IsNested
        → (fuel : ℕ) (source dest : Text) (h : List Action) → rank source < fuel
        → (r : Outcome (Unit {0}) × List Action) × (copy_deployments fuel source dest h ≡ some r)
          × ((more : ℕ) → rank source < more → copy_deployments more source dest h ≡ some r)
    copy_deployments_ends nested fuel source dest h enough =
        let (r, e) = copy-Returns nested fuel source dest h enough in
        (r, e, λ more enough'. copy_same nested more fuel source dest h enough' enough ∙ e)
