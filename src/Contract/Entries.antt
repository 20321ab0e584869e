-- ===== src/Contract/Entries.antt =====
-- The entries of an array that grows at its end and whose entries are blanked, as `parties` is.
use ocn_registry_v.Base.{
  ◌≡◌, refl, arith, ℕ, zero, suc, ◌<◌, Bool, true, false, ◌&&◌, Option, none, some, List, [], ◌∷◌,
  ◌++◌, ◌==◌, nat_eq, numbers_eq, contains, Bool-cases, inl, inr, if◌then◌else◌,
}
use ocn_registry_v.Base.Lists.{length, keep}
use ocn_registry_v.Text.{Text}
use ocn_registry_v.Client.Types.{zero_address}
use ocn_registry_v.Contract.Operations.{blank}
use ocn_registry_v.Contract.Nodes.{HasNoRepeat}

unfoldable pub entry : ℕ → List Text → Option Text
entry i [] = none
entry zero (a ∷ xs) = some a
entry (suc i) (a ∷ xs) = entry i xs

pub entry-append :
    (i : ℕ) (xs : List Text) (a : Text)
    → entry i (xs ++ a ∷ []) ≡ (if i == length xs then some a else entry i xs)
unfolding entry
entry-append zero [] a = ground arith
entry-append (suc i) [] a = ground arith
entry-append zero (x ∷ xs) a = ground arith
entry-append (suc i) (x ∷ xs) a = ground (arith, entry-append i xs a)

same_entry : (z a : Text) → some z ≡ some a → a ≡ z
same_entry z a h = cc h

pub entry-blank_same :
    (i : ℕ) (xs : List Text) (a : Text) → entry i (blank i xs) ≡ some a → a ≡ zero_address
unfolding entry blank
entry-blank_same zero [] a h = absurd (cc h)
entry-blank_same (suc i) [] a h = absurd (cc h)
entry-blank_same zero (x ∷ xs) a h = same_entry zero_address a h
entry-blank_same (suc i) (x ∷ xs) a h = entry-blank_same i xs a h

pub entry-blank_other :
    (i j : ℕ) (xs : List Text) → (i == j) ≡ false → entry i (blank j xs) ≡ entry i xs
unfolding entry blank
entry-blank_other i j [] h = refl
entry-blank_other zero zero (x ∷ xs) h = absurd (ground (arith, h))
entry-blank_other zero (suc j) (x ∷ xs) h = refl
entry-blank_other (suc i) zero (x ∷ xs) h = refl
entry-blank_other (suc i) (suc j) (x ∷ xs) h = entry-blank_other i j xs (ground (arith, h))

pub entry-bound : (i : ℕ) (xs : List Text) (a : Text) → entry i xs ≡ some a → i < length xs
unfolding entry
entry-bound i [] a h = absurd (cc h)
entry-bound zero (x ∷ xs) a h = omega arith
entry-bound (suc i) (x ∷ xs) a h = omega (arith, entry-bound i xs a h)

-- An entry of a list is in it, and what is in it is an entry.
pub contains-entry :
    (i : ℕ) (xs : List Text) (a : Text) → entry i xs ≡ some a → contains xs a ≡ true
unfolding entry
contains-entry i [] a h = absurd (cc h)
contains-entry zero (x ∷ xs) a h = ground (arith, h)
contains-entry (suc i) (x ∷ xs) a h = ground (arith, contains-entry i xs a h)

position : (xs : List Text) (a : Text) → contains xs a ≡ true → (i : ℕ) × (entry i xs ≡ some a)
unfolding entry
position [] a h = absurd (cc h)
position (x ∷ xs) a h = elim (Bool-cases (a == x)) [
  | inl same ↦ (0, ground (arith, same))
  | inr other ↦ (let rest = position xs a (ground (arith, h, other)) in (suc rest.0, rest.1))
]

kept_there :
    (p : Text → Bool) (xs : List Text) (a : Text)
    → contains (keep p xs) a ≡ true
    → contains xs a ≡ true
unfolding keep
kept_there p [] a h = h
kept_there p (x ∷ xs) a h = ground (arith, h, kept_there p xs a)

-- What is in a list and passes a test is left by it, and the rest is not.
pub contains-keep :
    (p : Text → Bool) (xs : List Text) (a : Text) → contains (keep p xs) a ≡ (contains xs a && p a)
unfolding keep
contains-keep p [] a = refl
contains-keep p (x ∷ xs) a = ground (arith, contains-keep p xs a)

-- If an entry that passes a test is at one place only, then what is left by the test has no repeats.
pub keep-HasNoRepeat :
    (p : Text → Bool) (xs : List Text)
    → ((i j : ℕ) (a : Text) → p a ≡ true → entry i xs ≡ some a → entry j xs ≡ some a → i ≡ j)
    → HasNoRepeat (keep p xs)
unfolding entry keep
keep-HasNoRepeat p [] h = tt
keep-HasNoRepeat p (x ∷ xs) h =
    let rest =
      keep-HasNoRepeat p xs
        (λ i j a passes at_i at_j. omega (arith, h (suc i) (suc j) a passes at_i at_j)) in
    elim (Bool-cases (p x)) [
      | inr fails ↦ rw fails rest
      | inl passes ↦ rw passes (absent passes, rest)
    ]
  where
    absent : p x ≡ true → contains (keep p xs) x ≡ false
    absent passes = elim (Bool-cases (contains (keep p xs) x)) [
      | inr not_there ↦ not_there
      | inl there ↦
          (let q = position xs x (kept_there p xs x there) in
            absurd (omega (arith, h 0 (suc q.0) x passes refl q.1)))
    ]
