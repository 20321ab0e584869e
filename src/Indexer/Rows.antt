-- ===== src/Indexer/Rows.antt =====
-- The table of parties and the entities of single events, after any events.
use ocn_registry_v.Base.{
  ℕ, ◌<◌, ◌≡◌, ◌≢◌, refl, ap, String, ◌<>◌, map, zero, suc, Option, none, some, List, [], ◌∷◌, ◌++◌,
  arith, ◌==◌, string_eq, if◌then◌else◌, Option-cases, or_else, inl, inr, ◌⊎◌, ◌∙◌,
}
use ocn_registry_v.Base.Dict.{lookup, lookup-insert, lookup-nil}
use ocn_registry_v.Base.Lists.{All}
use ocn_registry_v.Indexer.Schema.{
  get_role, get_payment_status, get_cv_status, Host, Bytes, bytes_eq, Meta, Listing, Party,
  PartyUpdate, PartyUpdateEvent, Store, empty,
}
use ocn_registry_v.Indexer.Handlers.{
  id_of, origin_of, listing_of_update, deleted_key, handle_operator_update,
  handle_ownership_transferred, handle_party_delete, handle_party_update, handle_role_admin_changed,
  handle_role_granted, handle_role_revoked,
}
use ocn_registry_v.Indexer.Events.{
  Event, operator_update, ownership_transferred, party_delete, party_update, role_admin_changed,
  role_granted, role_revoked, handle, handle_all,
}

abbrev pub i32_limit : ℕ
i32_limit = 2147483648

-- A party but for the mark of its deletion.
abbrev pub row_of : Option Party → Option (Listing × String)
row_of none = none
row_of (some p) = some (p.listing, p.operator)

abbrev pub meta_of : Event → Meta
meta_of (operator_update e) = e.meta
meta_of (ownership_transferred e) = e.meta
meta_of (party_delete e) = e.meta
meta_of (party_update e) = e.meta
meta_of (role_admin_changed e) = e.meta
meta_of (role_granted e) = e.meta
meta_of (role_revoked e) = e.meta

-- The names that the subgraph has for the numbers of an enum.
abbrev name_of : List String → ℕ → String
name_of [] n = "UNKNOWN"
name_of (name ∷ names) zero = name
name_of (name ∷ names) (suc n) = name_of names n

abbrev pub role_names : List String
role_names = "CPO" ∷ "EMSP" ∷ "NAP" ∷ "NSP" ∷ "OTHER" ∷ "SCSP" ∷ "HUB" ∷ []

abbrev pub payment_names : List String
payment_names = "NOT_PAID" ∷ "PAID" ∷ "PENDING" ∷ []

abbrev pub cv_names : List String
cv_names = "NOT_VERIFIED" ∷ "VERIFIED" ∷ "PENDING" ∷ []

module _ (H : Host) where
  -- The key and the row of an update, from the event's fields.
  abbrev key_in : PartyUpdateEvent → String
  key_in e = H.to_text e.country_code <> ("/" <> H.to_text e.party_id)

  abbrev pub texts_in : PartyUpdateEvent → Listing
  texts_in e = record {
    country_code = H.to_text e.country_code;
    party_id = H.to_text e.party_id;
    party_address = H.to_hex_string e.party_address;
    roles = map (name_of role_names) e.roles;
    name = e.name;
    url = e.url;
    payment_status = name_of payment_names e.payment_status;
    cv_status = name_of cv_names e.cv_status;
    active = e.active;
  }

  get_role-names : (n : ℕ) → get_role n ≡ name_of role_names n
  unfolding get_role
  get_role-names n = ground arith

  map-get_role : (roles : List ℕ) → map get_role roles ≡ map (name_of role_names) roles
  map-get_role [] = refl
  map-get_role (n ∷ roles) =
      ap (λ name. name ∷ map get_role roles) (get_role-names n)
      ∙ ap (λ names. name_of role_names n ∷ names) (map-get_role roles)

  get_payment_status-names : (n : ℕ) → get_payment_status n ≡ name_of payment_names n
  unfolding get_payment_status
  get_payment_status-names n = ground arith

  get_cv_status-names : (n : ℕ) → get_cv_status n ≡ name_of cv_names n
  unfolding get_cv_status
  get_cv_status-names n = ground arith

  texts_written : (e : PartyUpdateEvent) → listing_of_update H e ≡ texts_in e
  texts_written e = rw (map-get_role e.roles, get_payment_status-names, get_cv_status-names) refl

  abbrev pub row_in : String → Event → Option (Listing × String)
  row_in k (party_update e) =
      if k == key_in e then some (texts_in e, H.to_hex_string e.operator_address) else none
  row_in k _ = none

  unfoldable pub last_row : String → List Event → Option (Listing × String)
  last_row k [] = none
  last_row k (e ∷ es) = or_else (last_row k es) (row_in k e)

  handle-row :
      (k : String) (e : Event) (s : Store)
      → row_of (lookup k (handle H e s).parties)
        ≡ or_else (row_in k e) (row_of (lookup k s.parties))
  unfolding handle handle_operator_update handle_ownership_transferred handle_party_delete
      handle_party_update handle_role_admin_changed handle_role_granted handle_role_revoked
  handle-row k (party_update e) s = rw (lookup-insert, ← texts_written) (ground arith)
  handle-row k (party_delete e) s = elim (Option-cases (lookup (deleted_key H e) s.parties)) [
    | inl missing ↦ rw (missing, handle_party_delete)
    | inr (q, there) ↦ rw (there, handle_party_delete) (rw lookup-insert (ground (arith, there)))
  ]
  handle-row k _ s = refl

  handle_all-row :
      (k : String) (es : List Event) (s : Store)
      → row_of (lookup k (handle_all H es s).parties)
        ≡ or_else (last_row k es) (row_of (lookup k s.parties))
  unfolding handle_all last_row
  handle_all-row k [] s = refl
  handle_all-row k (e ∷ es) s = ground (arith, handle_all-row k es (handle H e s), handle-row k e s)

  -- After any events, the table of parties has an entry under a key exactly if some update was made
  -- under it, and the entry holds the texts and the operator of the last of these.
  pub parties_replay :
      (es : List Event) (k : String)
      → row_of (lookup k (handle_all H es empty).parties) ≡ last_row k es
  parties_replay es k = rw (handle_all-row, lookup-nil) (ground arith)

  -- Another event, by its transaction or its place in the log.
  abbrev pub IsOther : Meta → Event → Type 0
  IsOther m x =
      ((m.transaction_hash ≢ (meta_of x).transaction_hash) ⊎ (m.log_index ≢ (meta_of x).log_index))
      × ((meta_of x).log_index < i32_limit)

  abbrev pub entity_of : PartyUpdateEvent → PartyUpdate
  entity_of e = record {
    listing = listing_of_update H e;
    operator_address = e.operator_address;
    origin = origin_of e.meta;
  }

  handle-other :
      (id : Bytes) (x : Event) (s : Store)
      → id ≢ id_of H (meta_of x)
      → lookup id (handle H x s).party_updates ≡ lookup id s.party_updates
  unfolding handle handle_operator_update handle_ownership_transferred handle_party_delete
      handle_party_update handle_role_admin_changed handle_role_granted handle_role_revoked
  handle-other id (party_update e) s h = rw lookup-insert (ground arith)
  handle-other id _ s h = refl

  handle-own :
      (e : PartyUpdateEvent) (s : Store)
      → lookup (id_of H e.meta) (handle H (party_update e) s).party_updates ≡ some (entity_of e)
  unfolding handle handle_party_update
  handle-own e s = rw lookup-insert (ground arith)

  module _
      (concat_inj : (a b : Bytes) (i j : ℕ)
        → i < i32_limit
        → j < i32_limit
        → H.concat_i32 a i ≡ H.concat_i32 b j
        → (a ≡ b) × (i ≡ j)) where
    other_id :
        (m : Meta) (x : Event)
        → m.log_index < i32_limit
        → IsOther m x
        → id_of H m ≢ id_of H (meta_of x)
    other_id m x small (inl h, fits) e = h (concat_inj _ _ _ _ small fits e).0
    other_id m x small (inr h, fits) e = h (concat_inj _ _ _ _ small fits e).1

    handle_all-other :
        (m : Meta) (es : List Event) (s : Store)
        → m.log_index < i32_limit
        → All (IsOther m) es
        → lookup (id_of H m) (handle_all H es s).party_updates ≡ lookup (id_of H m) s.party_updates
    unfolding handle_all
    handle_all-other m [] s small h = refl
    handle_all-other m (x ∷ es) s small (h, hs) =
        handle_all-other m es (handle H x s) small hs
        ∙ handle-other (id_of H m) x s (other_id m x small h)

    kept_from :
        (before after : List Event) (e : PartyUpdateEvent) (s : Store)
        → e.meta.log_index < i32_limit
        → All (IsOther e.meta) after
        → lookup (id_of H e.meta) (handle_all H (before ++ party_update e ∷ after) s).party_updates
          ≡ some (entity_of e)
    unfolding handle_all
    kept_from [] after e s small h =
        handle_all-other e.meta after (handle H (party_update e) s) small h ∙ handle-own e s
    kept_from (x ∷ before) after e s small h = kept_from before after e (handle H x s) small h

    -- Each update of a party stays on record: whatever events came before it, and whatever other
    -- events come after it, its entity is found under its identifier with all that the event said.
    -- Log indices fit an i32, and `concatI32` keeps different hashes and indices apart.
    pub party_update_kept :
        (before after : List Event) (e : PartyUpdateEvent)
        → e.meta.log_index < i32_limit
        → All (IsOther e.meta) after
        → lookup
            (id_of H e.meta)
            (handle_all H (before ++ party_update e ∷ after) empty).party_updates
          ≡ some (entity_of e)
    party_update_kept before after e small h = kept_from before after e empty small h
