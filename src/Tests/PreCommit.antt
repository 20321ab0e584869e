-- ===== src/Tests/PreCommit.antt =====
-- A staged diff with one file, and its check.
use ocn_registry_v.Base.{
  ◌≡◌, refl, true, not, some, [], ◌∷◌, ◌++◌, map, if◌then◌else◌, nat_eq, numbers_eq,
}
use ocn_registry_v.Base.Dict.{lookup}
use ocn_registry_v.Base.Lists.{any}
use ocn_registry_v.Text.{
  join, is_space, Text, codes, has_ink, starts_with, literal, digits, is_digit, digits_from,
}
use ocn_registry_v.PreCommit.Keys.{Platform}
use ocn_registry_v.PreCommit.Diff.{Parser, parse_diff, parse_lines, hunk_here, hunk_start}
use ocn_registry_v.PreCommit.Check.{main, is_env_file}
use ocn_registry_v.PreCommit.Scan.{is_bad_file, main_lem}
use ocn_registry_v.PreCommit.Keys.{is_delimiter, extract_tokens}
use ocn_registry_v.PreCommit.Tokens.{extract_tokens-join}
use ocn_registry_v.PreCommit.Hunks.{numbered, added, hunk_recorded}

abbrev platform : Platform
platform = record { to_lower = λ text. text; is_wallet = λ key. true }

abbrev diff : Text
diff = codes "+++ b/a.ts\n@@ -0,0 +1 @@\n+x"

main_lem_example : main platform diff (some (codes "a.ts" ∷ [])) ≡ (
    if not (has_ink diff)
    then 0
    else if any (is_bad_file platform) (parse_diff diff)
    then 1
    else if any (is_env_file platform) (codes "a.ts" ∷ [])
    then 1
    else 0)
main_lem_example = main_lem platform diff (some (codes "a.ts" ∷ []))

abbrev parser : Parser
parser = record {
  file_changes = (codes "a.ts", []) ∷ [];
  current_file = codes "a.ts";
  current_line_num = 0;
}

hunk_recorded_example :
    lookup
      (codes "a.ts")
      (parse_lines
        (codes "@@ -0,0 +5,2 @@" ∷ map added (codes "x" ∷ codes "" ∷ codes "y" ∷ []))
        parser).file_changes
    ≡ some ([] ++ numbered 5 (codes "x" ∷ codes "" ∷ codes "y" ∷ []))
unfolding starts_with hunk_start numbers_eq nat_eq hunk_here literal digits is_digit digits_from
    lookup
hunk_recorded_example =
    hunk_recorded (codes "@@ -0,0 +5,2 @@") 5 (codes "x" ∷ codes "" ∷ codes "y" ∷ []) parser [] refl
      refl (refl, (refl, (refl, tt))) refl refl

extract_tokens-join_example :
    extract_tokens (join (codes " ") (codes "a" ∷ codes "b" ∷ [])) ≡ codes "a" ∷ codes "b" ∷ []
unfolding any is_delimiter is_space nat_eq
extract_tokens-join_example =
    extract_tokens-join (codes "a" ∷ codes "b" ∷ []) ((refl, refl), ((refl, refl), tt))
