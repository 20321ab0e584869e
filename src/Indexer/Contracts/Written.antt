-- ===== src/Indexer/Contracts/Written.antt =====
-- Tables that events write rows of, each event under a key of its own.
use mathlib.Core.List.{append-nil, append_assoc}
use ocn_registry_v.Base.{
  ◌≡◌, ◌≢◌, refl, sym, ap, ◌∙◌, arith, Option, none, some, List, [], ◌∷◌, ◌++◌,
}
use ocn_registry_v.Base.Dict.{Dict, lookup, insert, lookup-insert}
use ocn_registry_v.Base.Lists.{All}
use ocn_registry_v.Indexer.Schema.{Bytes, bytes_eq}
use ocn_registry_v.Indexer.Votes.{insert-fresh}

module _ {E : Type 0} (key : E → Bytes) where
  abbrev pub HaveOwnKeys : List E → Type 0
  HaveOwnKeys [] = Unit
  HaveOwnKeys (e ∷ es) = All (λ x. key x ≢ key e) es × HaveOwnKeys es

-- A table that some of the events write a row of, each under its own key.
module _ {E V : Type 0} (key : E → Bytes) (row : E → Option V) where
  abbrev pub row_of : E → Dict Bytes V
  row_of e = elim (row e) [ none ↦ [] | some v ↦ (key e, v) ∷ [] ]

  -- The rows, in the order of their events.
  unfoldable pub rows : List E → Dict Bytes V
  rows [] = []
  rows (e ∷ es) = row_of e ++ rows es

  abbrev pub write : E → Dict Bytes V → Dict Bytes V
  write e d = elim (row e) [ none ↦ d | some v ↦ insert (key e) v d ]

  unfoldable pub written : List E → Dict Bytes V → Dict Bytes V
  written [] d = d
  written (e ∷ es) d = written es (write e d)

  abbrev AreUnwritten : Dict Bytes V → List E → Type 0
  AreUnwritten d es = All (λ x. lookup (key x) d ≡ none) es

  unwritten_after :
      (e x : E) (d : Dict Bytes V)
      → key x ≢ key e
      → lookup (key x) d ≡ none
      → lookup (key x) (write e d) ≡ none
  unwritten_after e x d apart h = by_row (row e)
    where
      by_row :
          (r : Option V) → lookup (key x) (elim r [ none ↦ d | some v ↦ insert (key e) v d ]) ≡ none
      by_row none = h
      by_row (some v) = rw lookup-insert (ground (arith, apart, h))

  AreUnwritten-after :
      (e : E) (d : Dict Bytes V) (es : List E)
      → All (λ x. key x ≢ key e) es
      → AreUnwritten d es
      → AreUnwritten (write e d) es
  AreUnwritten-after e d [] apart h = tt
  AreUnwritten-after e d (x ∷ es) (a, apart) (f, h) =
      (unwritten_after e x d a f, AreUnwritten-after e d es apart h)

  write_fresh : (e : E) (d : Dict Bytes V) → lookup (key e) d ≡ none → write e d ≡ d ++ row_of e
  write_fresh e d h = by_row (row e)
    where
      by_row :
          (r : Option V)
          → (elim r [ none ↦ d | some v ↦ insert (key e) v d ])
            ≡ d ++ (elim r [ none ↦ [] | some v ↦ (key e, v) ∷ [] ])
      by_row none = sym (append-nil d)
      by_row (some v) = insert-fresh (key e) v d h

  written_from :
      (es : List E) (d : Dict Bytes V)
      → HaveOwnKeys key es
      → AreUnwritten d es
      → written es d ≡ d ++ rows es
  unfolding written rows
  written_from [] d own h = sym (append-nil d)
  written_from (e ∷ es) d (a, own) (f, h) =
      written_from es (write e d) own (AreUnwritten-after e d es a h)
      ∙ ap (λ t. t ++ rows es) (write_fresh e d f)
      ∙ append_assoc d (row_of e) (rows es)

  none_written : (es : List E) → AreUnwritten [] es
  unfolding lookup
  none_written [] = tt
  none_written (e ∷ es) = (refl, none_written es)

  pub written-rows : (es : List E) → HaveOwnKeys key es → written es [] ≡ rows es
  written-rows es own = written_from es [] own (none_written es)
