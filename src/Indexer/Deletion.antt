-- ===== src/Indexer/Deletion.antt =====
-- What deleting a party does to the table of parties.
use Prim.Native.String.{count}
use text.Mathlib.TextLemmas.{length-append}
use ocn_registry_v.Base.{
  ◌≡◌, String, false, none, some, List, [], ◌∷◌, arith, string_eq, Option-cases, inl, inr,
}
use ocn_registry_v.Base.Dict.{lookup, insert_cases, lookup-nil}
use ocn_registry_v.Base.Lists.{All}
use ocn_registry_v.Indexer.Schema.{
  Host, Bytes, PartyDeleteEvent, PartyUpdateEvent, Party, Store, empty,
}
use ocn_registry_v.Indexer.Handlers.{
  deleted_key, party_key, was_deleted, handle_operator_update, handle_ownership_transferred,
  handle_party_delete, handle_party_update, handle_role_admin_changed, handle_role_granted,
  handle_role_revoked,
}
use ocn_registry_v.Indexer.Events.{
  Event, operator_update, ownership_transferred, party_delete, party_update, role_admin_changed,
  role_granted, role_revoked, handle, handle_all,
}

module _ (H : Host) where
  -- A country code of two characters (bytes2) and a party id of three (bytes3).
  abbrev pub AreCodes : Bytes → Bytes → Type 0
  AreCodes country party = (count (H.to_text country) ≡ 2) × (count (H.to_text party) ≡ 3)

  abbrev pub IsWellCoded : Event → Type 0
  IsWellCoded (party_delete e) = AreCodes e.country_code e.party_id
  IsWellCoded (party_update e) = AreCodes e.country_code e.party_id
  IsWellCoded (operator_update e) = Unit
  IsWellCoded (ownership_transferred e) = Unit
  IsWellCoded (role_admin_changed e) = Unit
  IsWellCoded (role_granted e) = Unit
  IsWellCoded (role_revoked e) = Unit

  party_key-count :
      (e : PartyUpdateEvent) → AreCodes e.country_code e.party_id → count (party_key H e) ≡ 6
  party_key-count e (c, p) = rw (length-append, length-append, c, p)

  deleted_key-count :
      (e : PartyDeleteEvent) → AreCodes e.country_code e.party_id → count (deleted_key H e) ≡ 5
  deleted_key-count e (c, p) = rw (length-append, c, p)

  record IsUndeleted (s : Store) : Type 0 where
    at :
        (k : String) (p : Party) → lookup k s.parties ≡ some p → (count k ≡ 6) × (p.deleted ≡ false)

  delete_misses :
      (e : PartyDeleteEvent) (s : Store)
      → AreCodes e.country_code e.party_id
      → IsUndeleted s
      → lookup (deleted_key H e) s.parties ≡ none
  delete_misses e s c h = elim (Option-cases (lookup (deleted_key H e) s.parties)) [
    | inl missing ↦ missing
    | inr (p, found) ↦ absurd (omega (arith, (h.at _ p found).0, deleted_key-count e c))
  ]

  was_deleted-IsUndeleted :
      (k : String) (s : Store) → IsUndeleted s → was_deleted H (lookup k s.parties) ≡ false
  was_deleted-IsUndeleted k s h = elim (Option-cases (lookup k s.parties)) [
    | inl missing ↦ rw missing
    | inr (p, found) ↦ rw found (h.at k p found).1
  ]

  update-IsUndeleted :
      (e : PartyUpdateEvent) (s : Store)
      → AreCodes e.country_code e.party_id
      → IsUndeleted s
      → IsUndeleted (handle_party_update H e s)
  unfolding handle_party_update
  update-IsUndeleted e s c h = record {
    at = λ k p found. elim (insert_cases k (party_key H e) _ p s.parties found) [
      | inl (same, row) ↦
          (rw same (party_key-count e c), rw (← row) (was_deleted-IsUndeleted (party_key H e) s h))
      | inr old ↦ h.at k p old
    ];
  }

  delete-parties :
      (e : PartyDeleteEvent) (s : Store)
      → AreCodes e.country_code e.party_id
      → IsUndeleted s
      → (handle_party_delete H e s).parties ≡ s.parties
  unfolding handle_party_delete
  delete-parties e s c h = rw (delete_misses e s c h, handle_party_delete)

  handle-IsUndeleted :
      (e : Event) (s : Store) → IsWellCoded e → IsUndeleted s → IsUndeleted (handle H e s)
  unfolding handle handle_operator_update handle_ownership_transferred handle_role_admin_changed
      handle_role_granted handle_role_revoked
  handle-IsUndeleted (party_update e) s c h = update-IsUndeleted e s c h
  handle-IsUndeleted (party_delete e) s c h = record {
    at = λ k p found. h.at k p (rw (delete-parties e s c h) at found);
  }
  handle-IsUndeleted (operator_update e) s c h = record { at = h.at }
  handle-IsUndeleted (ownership_transferred e) s c h = record { at = h.at }
  handle-IsUndeleted (role_admin_changed e) s c h = record { at = h.at }
  handle-IsUndeleted (role_granted e) s c h = record { at = h.at }
  handle-IsUndeleted (role_revoked e) s c h = record { at = h.at }

  handle_all-IsUndeleted :
      (es : List Event) (s : Store)
      → All IsWellCoded es
      → IsUndeleted s
      → IsUndeleted (handle_all H es s)
  unfolding handle_all
  handle_all-IsUndeleted [] s c h = h
  handle_all-IsUndeleted (e ∷ es) s (c, cs) h =
      handle_all-IsUndeleted es (handle H e s) cs (handle-IsUndeleted e s c h)

  empty-IsUndeleted : IsUndeleted empty
  empty-IsUndeleted = record { at = λ k p found. absurd (some_none (rw lookup-nil at found)) }
    where
      some_none : {p : Party} → none ≡ some p → ⊥
      some_none e = cc e

  -- Whatever parties are registered and deleted, no party of the subgraph is ever marked as
  -- deleted, and one more deletion leaves the table of parties as it is. All events have country
  -- codes of two characters and party ids of three.
  pub deletion_is_lost :
      (es : List Event) (e : PartyDeleteEvent)
      → All IsWellCoded es
      → AreCodes e.country_code e.party_id
      → ((k : String) (p : Party)
          → lookup k (handle_all H es empty).parties ≡ some p
          → p.deleted ≡ false)
        × ((handle_party_delete H e (handle_all H es empty)).parties
            ≡ (handle_all H es empty).parties)
  deletion_is_lost es e cs c =
      let h = handle_all-IsUndeleted es empty cs empty-IsUndeleted in
      (λ k p found. (h.at k p found).1, delete-parties e _ c h)
