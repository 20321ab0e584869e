-- ===== src/PreCommit/Check.antt =====
-- `main` of scripts/pre-commit-check.ts: the scan, and the verdict by its exit status.
use ocn_registry_v.Base.{
  ℕ, Bool, true, false, not, ◌&&◌, ◌||◌, Option, none, some, List, [], ◌∷◌, ◌++◌, ◌==◌, numbers_eq,
  if◌then◌else◌, contains,
}
use ocn_registry_v.Base.Lists.{any, keep}
use ocn_registry_v.Base.Dict.{Dict}
use ocn_registry_v.Text.{Text, codes, starts_with, ends_with, has_ink}
use ocn_registry_v.PreCommit.Keys.{
  Platform, known_test_keys, is_safe_hash_field_line, extract_tokens, is_valid_private_key,
  normalize_key, is_known_placeholder_key,
}
use ocn_registry_v.PreCommit.Diff.{Change, parse_diff}

pub record FoundKey : Type 0 where
  pub key : Text
  pub file : Text
  pub line : ℕ
  pub is_test_key : Bool

-- `foundKeys` and `checkedTokens`
pub record Scan : Type 0 where
  pub found_keys : List FoundKey
  pub checked_tokens : List Text

abbrev pub excluded_paths : List Text
excluded_paths = codes "src/deployments/" ∷ codes "deployments/" ∷ codes ".openzeppelin/" ∷ []

unfoldable pub is_excluded : Text → Bool
is_excluded file = any (λ p. starts_with p file) excluded_paths

-- `xs.length > 0`
abbrev pub is_cons : {A : Type 0} → List A → Bool
is_cons [] = false
is_cons (x ∷ xs) = true

module _ (P : Platform) where
  -- A token that has not been checked before.
  unfoldable pub report : Text → ℕ → Text → List FoundKey → List FoundKey
  report file line token found =
      if is_valid_private_key P token
      then (if is_known_placeholder_key P (normalize_key P token)
          then found
          else found
            ++ (record {
              key = token;
              file = file;
              line = line;
              is_test_key = contains known_test_keys (normalize_key P token);
            }
                ∷ []))
      else found

  unfoldable pub check_token : Text → ℕ → Text → Scan → Scan
  check_token file line token s = if contains s.checked_tokens token then s else record {
    found_keys = report file line token s.found_keys;
    checked_tokens = token ∷ s.checked_tokens;
  }

  unfoldable pub check_tokens : Text → ℕ → List Text → Scan → Scan
  check_tokens file line [] s = s
  check_tokens file line (token ∷ tokens) s =
      check_tokens file line tokens (check_token file line token s)

  unfoldable pub check_changes : Text → List Change → Scan → Scan
  check_changes file [] s = s
  check_changes file (c ∷ changes) s = check_changes file changes (
      if is_safe_hash_field_line c.content
      then s
      else check_tokens file c.line_num (extract_tokens c.content) s)

  unfoldable pub check_files : Dict Text (List Change) → Scan → Scan
  check_files [] s = s
  check_files ((file, changes) ∷ files) s =
      check_files files (if is_excluded file then s else check_changes file changes s)

  abbrev pub no_scan : Scan
  no_scan = record { found_keys = []; checked_tokens = [] }

  unfoldable pub real_keys : Text → List FoundKey
  real_keys diff = keep (λ k. not k.is_test_key) (check_files (parse_diff diff) no_scan).found_keys

  -- `/\.env($|\.)/.test(text)`
  unfoldable pub names_env : Text → Bool
  names_env [] = false
  names_env (c ∷ text) =
      (c ∷ text) == codes ".env" || starts_with (codes ".env.") (c ∷ text) || names_env text

  unfoldable pub is_env_file : Text → Bool
  is_env_file file =
      let lowered = P.to_lower file in
      not (ends_with (codes ".env.example") lowered || ends_with (codes ".env.sample") lowered)
      && names_env lowered

  -- The exit status. The staged files are the lines of `git diff --name-only`, and `none` where that
  -- command fails; the diff is empty where its command fails.
  unfoldable pub main : Text → Option (List Text) → ℕ
  main diff staged_files =
      if not (has_ink diff)
      then 0
      else if is_cons (real_keys diff)
      then 1
      else elim staged_files [ none ↦ 1 | some files ↦ if any is_env_file files then 1 else 0 ]
