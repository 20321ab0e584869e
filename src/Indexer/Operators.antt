-- ===== src/Indexer/Operators.antt =====
-- The table of operators after any events, and the parties' references into it.
use ocn_registry_v.Base.{
  ◌≡◌, refl, String, Bool, true, false, ◌||◌, Option, none, some, List, [], ◌∷◌, arith, ◌==◌,
  string_eq, if◌then◌else◌, is_some, Option-cases, or_else, inl, inr, ◌⊎◌, ap,
}
use ocn_registry_v.Base.Dict.{lookup, lookup-insert, insert_cases, lookup-nil}
use ocn_registry_v.Indexer.Schema.{Host, Operator, PartyUpdateEvent, Party, Store, empty}
use ocn_registry_v.Indexer.Handlers.{
  deleted_key, party_key, handle_operator_update, handle_ownership_transferred, handle_party_delete,
  handle_party_update, handle_role_admin_changed, handle_role_granted, handle_role_revoked,
}
use ocn_registry_v.Indexer.Events.{
  Event, operator_update, party_delete, party_update, handle, handle_all, handle_all_induction,
}

abbrev pub domain_of : Option Operator → Option String
domain_of none = none
domain_of (some o) = some o.domain

module _ (H : Host) where
  -- What one event says of the operator with this identifier: a domain, or that it is mentioned.
  abbrev pub domain_in : String → Event → Option String
  domain_in id (operator_update e) =
      if id == H.to_hex_string e.operator then some e.domain else none
  domain_in id _ = none

  abbrev pub mentions : String → Event → Bool
  mentions id (party_update e) = id == H.to_hex_string e.operator_address
  mentions id _ = false

  unfoldable pub last_domain : String → List Event → Option String
  last_domain id [] = none
  last_domain id (e ∷ es) = or_else (last_domain id es) (domain_in id e)

  unfoldable pub is_mentioned : String → List Event → Bool
  is_mentioned id [] = false
  is_mentioned id (e ∷ es) = mentions id e || is_mentioned id es

  -- The last domain, or the one before, or else "unknown" for an operator that is only mentioned.
  abbrev domain_after : Option String → Option String → Bool → Option String
  domain_after last before mentioned =
      or_else last (or_else before (if mentioned then some "unknown" else none))

  handle-domain :
      (id : String) (e : Event) (s : Store)
      → domain_of (lookup id (handle H e s).operators)
        ≡ domain_after (domain_in id e) (domain_of (lookup id s.operators)) (mentions id e)
  unfolding handle handle_operator_update handle_ownership_transferred handle_party_delete
      handle_party_update handle_role_admin_changed handle_role_granted handle_role_revoked
  handle-domain id (operator_update e) s = ground (
    arith,
    lookup-insert {0, 0} id (H.to_hex_string e.operator) (record { domain = e.domain }) s.operators,
  )
  handle-domain id (party_update e) s = ground (
    arith,
    lookup-insert {0, 0} id (H.to_hex_string e.operator_address) (record { domain = "unknown" })
        s.operators,
  )
  handle-domain id _ s = ground arith

  handle_all-domain :
      (id : String) (es : List Event) (s : Store)
      → domain_of (lookup id (handle_all H es s).operators)
        ≡ domain_after (last_domain id es) (domain_of (lookup id s.operators)) (is_mentioned id es)
  unfolding handle_all last_domain is_mentioned
  handle_all-domain id [] s = ground arith
  handle_all-domain id (e ∷ es) s =
      ground (arith, handle_all-domain id es (handle H e s), handle-domain id e s)

  -- After any events, an operator is in the table exactly if some event named it, with the domain
  -- of the last event that set one, or "unknown" if parties referred to it and no event set one.
  pub operators_replay :
      (es : List Event) (id : String)
      → domain_of (lookup id (handle_all H es empty).operators)
        ≡ or_else (last_domain id es) (if is_mentioned id es then some "unknown" else none)
  operators_replay es id = rw (handle_all-domain, lookup-nil)

  -- Each party's operator is in the table of operators.
  pub record HasOperators (s : Store) : Type 0 where
    pub at :
        (k : String) (p : Party)
        → lookup k s.parties ≡ some p
        → is_some (lookup p.operator s.operators) ≡ true

  -- Operators are never removed.
  handle-keeps :
      (id : String) (e : Event) (s : Store)
      → is_some (lookup id s.operators) ≡ true
      → is_some (lookup id (handle H e s).operators) ≡ true
  handle-keeps id e s h = ground (arith, handle-domain id e s)

  mentioned_present :
      (e : PartyUpdateEvent) (s : Store)
      → is_some
          (lookup (H.to_hex_string e.operator_address) (handle H (party_update e) s).operators)
        ≡ true
  mentioned_present e s =
      ground (arith, handle-domain (H.to_hex_string e.operator_address) (party_update e) s)

  party_cases :
      (k : String) (e : Event) (s : Store) (p : Party)
      → lookup k (handle H e s).parties ≡ some p
      → (is_some (lookup p.operator (handle H e s).operators) ≡ true)
        ⊎ ((q : Party) × (lookup k s.parties ≡ some q) × (q.operator ≡ p.operator))
  unfolding handle handle_operator_update handle_ownership_transferred handle_party_delete
      handle_party_update handle_role_admin_changed handle_role_granted handle_role_revoked
  party_cases k (party_update e) s p found =
      elim (insert_cases k (party_key H e) _ p s.parties found) [
        | inl (_, row) ↦ inl (rw (← row) (mentioned_present e s))
        | inr old ↦ inr (p, old, refl)
      ]
  party_cases k (party_delete e) s p found =
      elim (Option-cases (lookup (deleted_key H e) s.parties)) [
        | inl missing ↦ inr (p, rw (missing, handle_party_delete) at found, refl)
        | inr (q, there) ↦
            elim (insert_cases k (deleted_key H e) (record q { deleted = true }) p s.parties
              (rw (there, handle_party_delete) at found)) [
                | inl (same, row) ↦ inr (q, rw same there, ap (λ r. r.operator) row)
                | inr old ↦ inr (p, old, refl)
              ]
      ]
  party_cases k _ s p found = inr (p, found, refl)

  handle-HasOperators : (e : Event) (s : Store) → HasOperators s → HasOperators (handle H e s)
  handle-HasOperators e s h = record {
    at = λ k p found. elim (party_cases k e s p found) [
      | inl there ↦ there
      | inr (q, old, same) ↦ handle-keeps p.operator e s (rw (← same) (h.at k q old))
    ];
  }

  -- After any events, the operator that a party refers to is in the table of operators.
  pub handle_all-HasOperators : (es : List Event) → HasOperators (handle_all H es empty)
  handle_all-HasOperators es =
      handle_all_induction H handle-HasOperators es empty
        (record { at = λ k p found. absurd (cc (lookup-nil {V = Party} k)) })
