-- ===== src/PreCommit/Scan.antt =====
-- The verdict of `main`, and that of a scan with no memory of the tokens that it has checked.
use ocn_registry_v.Base.{
  ◌≡◌, ap, arith, ℕ, Bool, true, false, not, ◌&&◌, ◌||◌, Option, none, some, List, [], ◌∷◌, ◌++◌,
  numbers_eq, if◌then◌else◌, contains, Bool-cases, inl, inr, ◌⊎◌,
}
use ocn_registry_v.Base.Lists.{any, keep}
use ocn_registry_v.Base.Dict.{Dict}
use ocn_registry_v.Text.{Text, has_ink}
use ocn_registry_v.PreCommit.Keys.{
  Platform, known_test_keys, is_safe_hash_field_line, extract_tokens, is_valid_private_key,
  normalize_key, is_known_placeholder_key,
}
use ocn_registry_v.PreCommit.Diff.{Change, parse_diff}
use ocn_registry_v.PreCommit.Check.{
  FoundKey, Scan, is_excluded, is_cons, report, check_token, check_tokens, check_changes,
  check_files, no_scan, real_keys, is_env_file, main,
}

is_cons-keep-append :
    {A : Type 0} (p : A → Bool) (xs : List A) (x : A)
    → is_cons (keep p (xs ++ x ∷ [])) ≡ (is_cons (keep p xs) || p x)
unfolding keep
is_cons-keep-append p [] x = ground arith
is_cons-keep-append p (y ∷ xs) x = ground (arith, is_cons-keep-append p xs x)

module _ (P : Platform) where
  -- A key that must not be committed.
  unfoldable pub is_real_key : Text → Bool
  is_real_key token =
      is_valid_private_key P token
      && not (is_known_placeholder_key P (normalize_key P token))
      && not (contains known_test_keys (normalize_key P token))

  unfoldable pub has_real_key : Change → Bool
  has_real_key c =
      not (is_safe_hash_field_line c.content) && any is_real_key (extract_tokens c.content)

  unfoldable pub is_bad_file : Text × List Change → Bool
  is_bad_file (file, changes) = not (is_excluded file) && any has_real_key changes

  has_found : Scan → Bool
  has_found s = is_cons (keep (λ k. not k.is_test_key) s.found_keys)

  -- A real key among the tokens checked is among the keys found.
  IsSound : Scan → Type 0
  IsSound s =
      (t : Text) → contains s.checked_tokens t ≡ true → is_real_key t ≡ true → has_found s ≡ true

  -- From one state to another, where what came between holds a real key or not.
  record Adds (b : Bool) (s t : Scan) : Type 0 where
    found : has_found t ≡ (has_found s || b)
    sound : IsSound t

  has_found-report :
      (file : Text) (line : ℕ) (token : Text) (found : List FoundKey)
      → is_cons (keep (λ k. not k.is_test_key) (report P file line token found))
        ≡ (is_cons (keep (λ k. not k.is_test_key) found) || is_real_key token)
  unfolding report is_real_key
  has_found-report file line token found = ground (
    arith,
    is_cons-keep-append (λ k. not k.is_test_key) found
        (record {
          key = token;
          file = file;
          line = line;
          is_test_key = contains known_test_keys (normalize_key P token);
        }),
  )

  Adds-trans : (b c : Bool) (s t u : Scan) → Adds b s t → Adds c t u → Adds (b || c) s u
  Adds-trans b c s t u h k = record { found = ground (arith, h.found, k.found); sound = k.sound }

  Adds-if :
      (b c : Bool) (s t : Scan) → IsSound s → Adds c s t → Adds (not b && c) s (if b then s else t)
  Adds-if true c s t sound h = record { found = ground arith; sound = sound }
  Adds-if false c s t sound h = h

  found-check_token :
      (file : Text) (line : ℕ) (token : Text) (s : Scan)
      → IsSound s
      → has_found (check_token P file line token s) ≡ (has_found s || is_real_key token)
  unfolding has_found check_token IsSound
  found-check_token file line token s h = elim (Bool-cases (contains s.checked_tokens token)) [
    | inl seen ↦ rw seen (cases (Bool-cases (is_real_key token)) seen)
    | inr unseen ↦ rw unseen (has_found-report file line token s.found_keys)
  ]
    where
      cases :
          (is_real_key token ≡ true) ⊎ (is_real_key token ≡ false)
          → contains s.checked_tokens token ≡ true
          → has_found s ≡ (has_found s || is_real_key token)
      cases (inl real) seen = ground (arith, h token seen real, real)
      cases (inr harmless) seen = ground (arith, harmless)

  check_token-Adds :
      (file : Text) (line : ℕ) (token : Text) (s : Scan)
      → IsSound s
      → Adds (is_real_key token) s (check_token P file line token s)
  unfolding check_token IsSound
  check_token-Adds file line token s h = record { found = found; sound = sound }
    where
      found : has_found (check_token P file line token s) ≡ (has_found s || is_real_key token)
      found = found-check_token file line token s h

      before :
          (t : Text)
          → contains (check_token P file line token s).checked_tokens t ≡ true
          → (contains s.checked_tokens t ≡ true) ⊎ (t ≡ token)
      before t seen = ground arith

      sound : IsSound (check_token P file line token s)
      sound t seen real = elim (before t seen) [
        | inl old ↦ ground (arith, found, h t old real)
        | inr same ↦ ground (arith, found, ap is_real_key same)
      ]

  check_tokens-Adds :
      (file : Text) (line : ℕ) (tokens : List Text) (s : Scan)
      → IsSound s
      → Adds (any is_real_key tokens) s (check_tokens P file line tokens s)
  unfolding check_tokens any
  check_tokens-Adds file line [] s h = record { found = ground arith; sound = h }
  check_tokens-Adds file line (token ∷ tokens) s h =
      let one = check_token-Adds file line token s h in
      Adds-trans _ _ s _ _ one (check_tokens-Adds file line tokens _ one.sound)

  check_changes-Adds :
      (file : Text) (changes : List Change) (s : Scan)
      → IsSound s
      → Adds (any has_real_key changes) s (check_changes P file changes s)
  unfolding check_changes any has_real_key
  check_changes-Adds file [] s h = record { found = ground arith; sound = h }
  check_changes-Adds file (c ∷ changes) s h =
      let one =
        Adds-if (is_safe_hash_field_line c.content) _ s _ h
          (check_tokens-Adds file c.line_num (extract_tokens c.content) s h) in
      Adds-trans _ _ s _ _ one (check_changes-Adds file changes _ one.sound)

  check_files-Adds :
      (files : Dict Text (List Change)) (s : Scan)
      → IsSound s
      → Adds (any is_bad_file files) s (check_files P files s)
  unfolding check_files any is_bad_file
  check_files-Adds [] s h = record { found = ground arith; sound = h }
  check_files-Adds ((file, changes) ∷ files) s h =
      let one = Adds-if (is_excluded file) _ s _ h (check_changes-Adds file changes s h) in
      Adds-trans _ _ s _ _ one (check_files-Adds files _ one.sound)

  no_scan-IsSound : IsSound (no_scan P)
  unfolding IsSound
  no_scan-IsSound t seen real = absurd (cc seen)

  real_keys-is_cons : (diff : Text) → is_cons (real_keys P diff) ≡ any is_bad_file (parse_diff diff)
  unfolding real_keys has_found any keep
  real_keys-is_cons diff = (check_files-Adds (parse_diff diff) (no_scan P) no_scan-IsSound).found

  -- The exit status is 1 exactly if the diff is not blank and one of these holds, and 0 otherwise:
  -- some line that `parseDiff` records for a file that is not excluded, and that is no field with a
  -- hash, holds a token that is a valid private key and neither a placeholder nor a known test key,
  -- wherever that token stood before; or the staged files cannot be listed; or one of them is an
  -- environment file.
  pub main_lem :
      (diff : Text) (staged_files : Option (List Text))
      → main P diff staged_files ≡ (
          if not (has_ink diff)
          then 0
          else if any is_bad_file (parse_diff diff)
          then 1
          else elim staged_files [
            | none ↦ 1
            | some files ↦ if any (is_env_file P) files then 1 else 0
          ])
  unfolding main
  main_lem diff staged_files = rw (real_keys-is_cons diff)
