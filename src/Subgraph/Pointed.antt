-- ===== src/Subgraph/Pointed.antt =====
-- What the updates of the data sources do to the manifest.
use ocn_registry_v.Base.{
  ◌≡◌, refl, ap, ℕ, ◌<◌, String, true, false, Option, none, some, List, [], ◌∷◌, ◌==◌, string_eq,
  truthy, or_default, Bool-cases, Option-cases, inl, inr, ◌⊎◌, map,
}
use ocn_registry_v.Base.Lists.{All, find}
use ocn_registry_v.Base.Exec.{Result, ok, err}
use ocn_registry_v.Subgraph.Update.{
  DataSource, Source, Values, ◌>=>◌, set_first, with_source, update_data_source, update_all,
}

-- What holds of the value if there is one.
pub record Returns {A : Type 0} (Q : A → Type 0) (m : Result A) : Type 0 where
  pub at : (a : A) → m ≡ ok a → Q a

pub Returns-bind :
    {A B : Type 0} {Q : B → Type 0} (m : Result A) (f : A → Result B)
    → ((a : A) → m ≡ ok a → Returns Q (f a))
    → Returns Q (m >=> f)
unfolding ◌>=>◌
Returns-bind (ok a) f h = h a refl
Returns-bind (err message) f h = record { at = λ b e. absurd (cc e) }

value_of : {A : Type 0} → A → Result A → A
value_of a (ok b) = b
value_of a (err message) = a

pub ok_injective : {A : Type 0} {a b : A} → Path (Result A) (ok a) (ok b) → a ≡ b
unfolding value_of
ok_injective {a} e = ap (value_of a) e

-- The data source of a name is on the network, with an address that is not empty and a start block
-- that is not 0.
abbrev pub IsOnNetwork : String → Option DataSource → Type 0
IsOnNetwork network none = ⊥
IsOnNetwork network (some d) =
    (d.network ≡ some network)
    × (s : Source) × (d.source ≡ some s)
    × ((a : String) × (s.address ≡ some a) × (truthy a ≡ true))
    × ((n : ℕ) × (s.start_block ≡ some n) × (0 < n))

abbrev pub named : String → List DataSource → Option DataSource
named name sources = find (λ d. d.name == name) sources

abbrev pub AreGood : String → String × Values → Type 0
AreGood network (name, v) = (v.network ≡ network) × (truthy v.address ≡ true) × (0 < v.start_block)

-- What an update makes of a data source.
abbrev written : Values → DataSource → DataSource
written v d = record d { network = some v.network; source = some (with_source v d.source) }

written-IsOnNetwork :
    (network name : String) (v : Values) (d : DataSource)
    → AreGood network (name, v)
    → IsOnNetwork network (some (written v d))
written-IsOnNetwork network name v d (net, address, start) = (
  ap some net,
  with_source v d.source,
  refl,
  (v.address, address_lem d.source, address),
  (v.start_block, start_lem d.source, start),
)
  where
    address_lem : (o : Option Source) → (with_source v o).address ≡ some v.address
    address_lem none = refl
    address_lem (some s) = refl

    start_lem : (o : Option Source) → (with_source v o).start_block ≡ some v.start_block
    start_lem none = refl
    start_lem (some s) = refl

some_injective : {A : Type 0} {a b : A} → Path (Option A) (some a) (some b) → a ≡ b
some_injective {a} e = ap (λ o. or_default o a) e

-- An update writes the first data source of the name, and leaves the others as they are.
module _ (name : String) (v : Values) where
  set_first_cases :
      (d : DataSource) (sources updated : List DataSource)
      → set_first name v (d ∷ sources) ≡ some updated
      → ((d.name == name) ≡ true) × (written v d ∷ sources ≡ updated)
        ⊎ ((d.name == name) ≡ false)
          × ((rest : List DataSource) × (set_first name v sources ≡ some rest)
              × (d ∷ rest ≡ updated))
  unfolding set_first
  set_first_cases d sources updated h = elim (Bool-cases (d.name == name)) [
    | inl same ↦ inl (same, some_injective (rw same at h))
    | inr differ ↦ elim (Option-cases (set_first name v sources)) [
      | inl missing ↦ absurd (cc (rw (differ, missing) at h))
      | inr (rest, found) ↦ inr (differ, (rest, found, some_injective (rw (differ, found) at h)))
    ]
  ]

  set_first_own :
      (sources updated : List DataSource)
      → set_first name v sources ≡ some updated
      → (d : DataSource) × (named name updated ≡ some (written v d))
  unfolding find set_first
  set_first_own [] updated h = absurd (cc h)
  set_first_own (d ∷ sources) updated h = elim (set_first_cases d sources updated h) [
    | inl (same, e) ↦ rw (← e) (d, rw same refl)
    | inr (differ, (rest, found, e)) ↦
        let (c, p) = set_first_own sources rest found in rw (← e) (c, rw differ p)
  ]

  set_first_other :
      (other : String) (sources updated : List DataSource)
      → set_first name v sources ≡ some updated
      → ((d : DataSource) × (named other updated ≡ some (written v d)))
        ⊎ (named other updated ≡ named other sources)
  unfolding find set_first
  set_first_other other [] updated h = absurd (cc h)
  set_first_other other (d ∷ sources) updated h = elim (set_first_cases d sources updated h) [
    | inl (same, e) ↦ elim (Bool-cases (d.name == other)) [
      | inl here ↦ rw (← e) (inl (d, rw here refl))
      | inr there ↦ rw (← e) (inr (rw there refl))
    ]
    | inr (differ, (rest, found, e)) ↦ elim (Bool-cases (d.name == other)) [
      | inl here ↦ rw (← e) (inr (rw here refl))
      | inr there ↦ elim (set_first_other other sources rest found) [
        | inl (c, p) ↦ rw (← e) (inl (c, rw there p))
        | inr same ↦ rw (← e) (inr (rw there same))
      ]
    ]
  ]

-- The data sources are on the network where one was, or where the update is good.
update-IsOnNetwork :
    (network manifest_name name other : String) (v : Values) (sources updated : List DataSource)
    → AreGood network (name, v)
    → update_data_source manifest_name (name, v) sources ≡ ok updated
    → IsOnNetwork network (named name updated)
      × (IsOnNetwork network (named other sources) → IsOnNetwork network (named other updated))
unfolding update_data_source
update-IsOnNetwork network manifest_name name other v sources updated good h =
    elim (Option-cases (set_first name v sources)) [
      | inl missing ↦ absurd (cc (rw (missing, update_data_source) at h))
      | inr (rest, found) ↦
          let e : rest ≡ updated = ok_injective (rw (found, update_data_source) at h) in
          let (d, own) = set_first_own name v sources rest found in
          (
            rw (← e, own) (written-IsOnNetwork network name v d good),
            λ before. elim (set_first_other name v other sources rest found) [
              | inl (c, p) ↦ rw (← e, p) (written-IsOnNetwork network name v c good)
              | inr same ↦ rw (← e, same) before
            ],
          )
    ]

module _ (network manifest_name : String) where
  abbrev pub AreOnNetwork : List DataSource → List String → Type 0
  AreOnNetwork sources [] = Unit
  AreOnNetwork sources (name ∷ names) =
      IsOnNetwork network (named name sources) × AreOnNetwork sources names

  update_all_keeps :
      (other : String) (values : List (String × Values)) (sources updated : List DataSource)
      → All (AreGood network) values
      → update_all manifest_name values sources ≡ ok updated
      → IsOnNetwork network (named other sources)
      → IsOnNetwork network (named other updated)
  unfolding update_all
  update_all_keeps other [] sources updated good h before = rw (← ok_injective h) before
  update_all_keeps other ((name, v) ∷ values) sources updated (one, good) h before =
      (Returns-bind (update_data_source manifest_name (name, v) sources)
          (update_all manifest_name values)
          (λ next e. record {
            at = λ last k. update_all_keeps other values next last good k (
                (update-IsOnNetwork network manifest_name name other v sources next one e).1
                  before);
          })).at
        updated h

  pub update_all-IsOnNetwork :
      (values : List (String × Values)) (sources updated : List DataSource)
      → All (AreGood network) values
      → update_all manifest_name values sources ≡ ok updated
      → AreOnNetwork updated (map (λ u. u.0) values)
  unfolding update_all
  update_all-IsOnNetwork [] sources updated good h = tt
  update_all-IsOnNetwork ((name, v) ∷ values) sources updated (one, good) h =
      (Returns-bind {Q = λ last. AreOnNetwork last (name ∷ map (λ u. u.0) values)}
          (update_data_source manifest_name (name, v) sources) (update_all manifest_name values)
          (λ next e. record {
            at = λ last k. (
              update_all_keeps name values next last good k
                  (update-IsOnNetwork network manifest_name name name v sources next one e).0,
              update_all-IsOnNetwork values next last good k,
            );
          })).at
        updated h
