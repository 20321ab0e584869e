-- ===== src/PreCommit/Diff.antt =====
-- `parseDiff` of scripts/pre-commit-check.ts: the added lines of each file, with their numbers.
use ocn_registry_v.Base.{
  ℕ, suc, not, ◌&&◌, Option, none, some, List, [], ◌∷◌, ◌++◌, ◌==◌, numbers_eq, is_some, nat_eq,
  or_default, if◌then◌else◌,
}
use ocn_registry_v.Base.Dict.{Dict, lookup, insert}
use ocn_registry_v.Text.{Text, codes, starts_with, slice, has_ink, split, digits, literal}

pub record Change : Type 0 where
  pub line_num : ℕ
  pub content : Text

-- The variables of the loop.
pub record Parser : Type 0 where
  pub file_changes : Dict Text (List Change)
  pub current_file : Text
  pub current_line_num : ℕ

infixl 5 ◌>>=◌
abbrev ◌>>=◌ {ℓ κ} : {A : Type ℓ} {B : Type κ} → Option A → (A → Option B) → Option B
none >>= k = none
some a >>= k = k a

-- `(?:,\d+)?`, then what must follow.
abbrev after_count : Text → Text
after_count text = elim (literal (codes ",") text) [
  | none ↦ text
  | some rest ↦ elim (digits rest) [ none ↦ text | some (n, more) ↦ more ]
]

-- `/@@ -\d+(?:,\d+)? \+(\d+)/` at one place: the number in the group.
unfoldable pub hunk_here : Text → Option ℕ
hunk_here text = do
  old ← literal (codes "@@ -") text
  (before, counted) ← digits old
  added ← literal (codes " +") (after_count counted)
  (start, rest) ← digits added
  some start

-- `line.match(…)`: the first place where it fits.
unfoldable pub hunk_start : Text → Option ℕ
hunk_start [] = none
hunk_start (c ∷ text) =
    let later = hunk_start text in elim (hunk_here (c ∷ text)) [ none ↦ later | some n ↦ some n ]

-- `fileChanges.get(file)?.push(change)`
abbrev pub push : Text → Change → Dict Text (List Change) → Dict Text (List Change)
push file change changes = elim (lookup file changes) [
  | none ↦ changes
  | some before ↦ insert file (before ++ change ∷ []) changes
]

-- The four branches of the loop's body.
unfoldable pub at_header : Text → Parser → Parser
at_header line p =
    let file = slice 6 line in
    record p {
      current_file = file;
      file_changes =
          if is_some (lookup file p.file_changes)
          then p.file_changes
          else insert file [] p.file_changes;
    }

unfoldable pub at_hunk : Text → Parser → Parser
at_hunk line p = record p { current_line_num = or_default (hunk_start line) p.current_line_num }

unfoldable pub at_added : Text → Parser → Parser
at_added line p =
    let content = slice 1 line in
    record p {
      file_changes =
          if not (p.current_file == []) && has_ink content
          then push p.current_file (record { line_num = p.current_line_num; content = content })
              p.file_changes
          else p.file_changes;
      current_line_num = suc p.current_line_num;
    }

unfoldable pub at_line : Text → Parser → Parser
unfolding at_header at_hunk at_added
at_line line p =
    if starts_with (codes "+++ b/") line
    then at_header line p
    else if starts_with (codes "@@") line
    then at_hunk line p
    else if starts_with (codes "+") line && not (starts_with (codes "+++") line)
    then at_added line p
    else if not (starts_with (codes "-") line)
    then record p { current_line_num = suc p.current_line_num }
    else p

unfoldable pub parse_lines : List Text → Parser → Parser
parse_lines [] p = p
parse_lines (line ∷ lines) p = parse_lines lines (at_line line p)

abbrev pub initial : Parser
initial = record { file_changes = []; current_file = []; current_line_num = 0 }

unfoldable pub parse_diff : Text → Dict Text (List Change)
parse_diff diff = (parse_lines (split b'\n' diff) initial).file_changes
