-- ===== src/PreCommit/Hunks.antt =====
-- What `parseDiff` makes of the added lines of a hunk, and of those whose text begins with two plus
-- signs.
use mathlib.Core.List.{append-nil, append_assoc}
use ocn_registry_v.Base.{
  ◌≡◌, refl, ap, sym, ◌∙◌, Bool-cases, inl, inr, arith, ℕ, suc, true, false, some, List, [], ◌∷◌,
  ◌++◌, map, ◌==◌, numbers_eq, if◌then◌else◌,
}
use ocn_registry_v.Base.Lists.{All}
use ocn_registry_v.Base.Dict.{Dict, lookup, lookup-insert_same}
use ocn_registry_v.Text.{Text, codes, starts_with, slice, has_ink}
use ocn_registry_v.PreCommit.Diff.{
  Change, Parser, push, at_hunk, at_added, at_line, hunk_start, parse_lines,
}

-- The changes of lines that stand one under the other from line n on, the blank ones left out.
unfoldable pub numbered : ℕ → List Text → List Change
numbered n [] = []
numbered n (text ∷ texts) =
    let rest = numbered (suc n) texts in
    if has_ink text then record { line_num = n; content = text } ∷ rest else rest

abbrev pub added : Text → Text
added text = codes "+" ++ text

lookup-push :
    (file : Text) (c : Change) (before : List Change) (d : Dict Text (List Change))
    → lookup file d ≡ some before
    → lookup file (push file c d) ≡ some (before ++ c ∷ [])
lookup-push file c before d found = rw (found, push) (lookup-insert_same file (before ++ c ∷ []) d)

module _ (text : Text) (p : Parser) where
  at_line-added :
      starts_with (codes "++") text ≡ false → at_line (added text) p ≡ at_added (added text) p
  unfolding at_line starts_with
  at_line-added h = ground arith

  current_file-added : (at_added (added text) p).current_file ≡ p.current_file
  unfolding at_added
  current_file-added = refl

  current_line_num-added : (at_added (added text) p).current_line_num ≡ suc p.current_line_num
  unfolding at_added
  current_line_num-added = omega arith

  lookup-added :
      (before : List Change)
      → (p.current_file == []) ≡ false
      → lookup p.current_file p.file_changes ≡ some before
      → lookup p.current_file (at_added (added text) p).file_changes
        ≡ some (before ++ numbered p.current_line_num (text ∷ []))
  unfolding at_added numbered slice
  lookup-added before named found = elim (Bool-cases (has_ink text)) [
    | inl ink ↦ rw (named, ink) (lookup-push p.current_file _ before p.file_changes found)
    | inr blank ↦ rw (named, blank) (found ∙ ap some (sym (append-nil before)))
  ]

module _ (n : ℕ) (text : Text) (texts : List Text) (before : List Change) where
  numbered-cons :
      (before ++ numbered n (text ∷ [])) ++ numbered (suc n) texts
      ≡ before ++ numbered n (text ∷ texts)
  unfolding numbered
  numbered-cons = elim (Bool-cases (has_ink text)) [
    | inl ink ↦ rw ink (append_assoc before _ _)
    | inr blank ↦ rw blank (ap (λ xs. xs ++ numbered (suc n) texts) (append-nil before))
  ]

first_code :
    (text : Text) → starts_with (codes "@@") text ≡ true → starts_with (codes "+++ b/") text ≡ false
unfolding starts_with
first_code [] h = absurd (cc h)
first_code (c ∷ text) h = ground arith

at_line-header :
    (header : Text) (n : ℕ) (p : Parser)
    → starts_with (codes "@@") header ≡ true
    → hunk_start header ≡ some n
    → at_line header p ≡ record p { current_line_num = n }
unfolding at_line at_hunk
at_line-header header n p is_header start =
    let other = first_code header is_header in rw (other, is_header, start) refl

abbrev IsPlain : Text → Type 0
IsPlain text = starts_with (codes "++") text ≡ false

parse_lines-added :
    (texts : List Text) (p : Parser) (before : List Change)
    → All IsPlain texts
    → (p.current_file == []) ≡ false
    → lookup p.current_file p.file_changes ≡ some before
    → lookup p.current_file (parse_lines (map added texts) p).file_changes
      ≡ some (before ++ numbered p.current_line_num texts)
unfolding parse_lines numbered at_added
parse_lines-added [] p before plain named found = found ∙ ap some (sym (append-nil before))
parse_lines-added (text ∷ texts) p before (one, plain) named found =
    ap (λ (q : Parser). lookup p.current_file (parse_lines (map added texts) q).file_changes)
      (at_line-added text p one)
    ∙ parse_lines-added texts (at_added (added text) p) _ plain named
        (lookup-added text p before named found)
    ∙ ap some (numbered-cons p.current_line_num text texts before)

-- Under a line that is the header of a hunk beginning at line n, the added lines are recorded in
-- order, after what the current file had before, with the numbers n, n + 1, and so on, and the
-- blank ones are left out but counted. The conditions are that no added text begins with two plus
-- signs and that the current file is named and has its entry.
pub hunk_recorded :
    (header : Text) (n : ℕ) (texts : List Text) (p : Parser) (before : List Change)
    → starts_with (codes "@@") header ≡ true
    → hunk_start header ≡ some n
    → All IsPlain texts
    → (p.current_file == []) ≡ false
    → lookup p.current_file p.file_changes ≡ some before
    → lookup p.current_file (parse_lines (header ∷ map added texts) p).file_changes
      ≡ some (before ++ numbered n texts)
unfolding parse_lines
hunk_recorded header n texts p before is_header start plain named found =
    ap (λ (q : Parser). lookup p.current_file (parse_lines (map added texts) q).file_changes)
      (at_line-header header n p is_header start)
    ∙ (parse_lines-added texts (record p { current_line_num = n }) before plain named found)

abbrev IsTwoPlus : Text → Type 0
IsTwoPlus text = (starts_with (codes "++") text ≡ true) × (starts_with (codes "++ b/") text ≡ false)

at_line-two_plus :
    (text : Text) (p : Parser)
    → IsTwoPlus text
    → (at_line (added text) p).file_changes ≡ p.file_changes
unfolding at_line starts_with
at_line-two_plus text p (plus, other) = ground arith

parse_lines-two_plus :
    (texts : List Text) (p : Parser)
    → All IsTwoPlus texts
    → (parse_lines (map added texts) p).file_changes ≡ p.file_changes
unfolding parse_lines
parse_lines-two_plus [] p plus = refl
parse_lines-two_plus (text ∷ texts) p (one, plus) =
    parse_lines-two_plus texts _ plus ∙ at_line-two_plus text p one

parse_lines-append :
    (lines more : List Text) (p : Parser)
    → parse_lines (lines ++ more) p ≡ parse_lines more (parse_lines lines p)
unfolding parse_lines
parse_lines-append [] more p = refl
parse_lines-append (line ∷ lines) more p = parse_lines-append lines more (at_line line p)

-- Added lines at the end of a diff whose text begins with two plus signs, but not with "++ b/", are
-- not recorded for any file: with them and without them the changes found are the same.
pub two_plus_unseen :
    (lines texts : List Text) (p : Parser)
    → All IsTwoPlus texts
    → (parse_lines (lines ++ map added texts) p).file_changes ≡ (parse_lines lines p).file_changes
two_plus_unseen lines texts p plus =
    ap (λ (q : Parser). q.file_changes) (parse_lines-append lines (map added texts) p)
    ∙ parse_lines-two_plus texts (parse_lines lines p) plus
