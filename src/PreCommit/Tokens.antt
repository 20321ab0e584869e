-- ===== src/PreCommit/Tokens.antt =====
-- The tokens that `extractTokens` of scripts/pre-commit-check.ts finds in a line.
use mathlib.Core.List.{append-nil, append_assoc}
use ocn_registry_v.Base.{
  ℕ, ◌≡◌, refl, ap, ◌∙◌, arith, Bool, true, false, List, [], ◌∷◌, ◌++◌, nat_eq, Bool-cases, inl,
  inr,
}
use ocn_registry_v.Base.Lists.{All, any}
use ocn_registry_v.Text.{Text, codes, join, is_space}
use ocn_registry_v.PreCommit.Keys.{is_delimiter, close, tokens_from, extract_tokens}
use ocn_registry_v.PreCommit.Check.{is_cons}

-- A text without delimiters that is not empty.
abbrev pub IsToken : Text → Type 0
IsToken text = (is_cons text ≡ true) × (any is_delimiter text ≡ false)

any-append :
    (p : ℕ → Bool) (xs : Text) (c : ℕ)
    → any p xs ≡ false
    → p c ≡ false
    → any p (xs ++ c ∷ []) ≡ false
unfolding any
any-append p [] c h k = ground arith
any-append p (x ∷ xs) c h k = ground (arith, any-append p xs c)

close-AreTokens :
    (run : Text) (tokens : List Text)
    → any is_delimiter run ≡ false
    → All IsToken tokens
    → All IsToken (close run tokens)
close-AreTokens [] tokens h k = k
close-AreTokens (c ∷ run) tokens h k = ((refl, h), k)

tokens_from-AreTokens :
    (run line : Text) → any is_delimiter run ≡ false → All IsToken (tokens_from run line)
unfolding tokens_from any
tokens_from-AreTokens run [] h = close-AreTokens run [] h tt
tokens_from-AreTokens run (c ∷ line) h = elim (Bool-cases (is_delimiter c)) [
  | inl ends ↦ rw ends (close-AreTokens run _ h (tokens_from-AreTokens [] line refl))
  | inr longer ↦
      rw longer
        (tokens_from-AreTokens (run ++ c ∷ []) line (any-append is_delimiter run c h longer))
]

space-delimiter : is_delimiter 32 ≡ true
unfolding is_delimiter is_space nat_eq
space-delimiter = refl

none_begins : (c : ℕ) (token : Text) → any is_delimiter (c ∷ token) ≡ false → is_delimiter c ≡ false
unfolding any
none_begins c token h = ground (arith, h)

none_follows :
    (c : ℕ) (token : Text) → any is_delimiter (c ∷ token) ≡ false → any is_delimiter token ≡ false
unfolding any
none_follows c token h = ground (arith, h)

-- A run goes on up to the next space.
tokens_from-space :
    (run token rest : Text)
    → any is_delimiter token ≡ false
    → tokens_from run (token ++ 32 ∷ rest) ≡ close (run ++ token) (tokens_from [] rest)
unfolding tokens_from
tokens_from-space run [] rest h = rw (space-delimiter, append-nil) refl
tokens_from-space run (c ∷ token) rest h = rw (none_begins c token h) (
    tokens_from-space (run ++ c ∷ []) token rest (none_follows c token h)
    ∙ ap (λ t. close t (tokens_from [] rest)) (append_assoc run (c ∷ []) token))

-- A run goes on to the end of the line.
tokens_from-end :
    (run token : Text)
    → any is_delimiter token ≡ false
    → tokens_from run token ≡ close (run ++ token) []
unfolding tokens_from
tokens_from-end run [] h = rw append-nil refl
tokens_from-end run (c ∷ token) h = rw (none_begins c token h) (
    tokens_from-end (run ++ c ∷ []) token (none_follows c token h)
    ∙ ap (λ t. close t []) (append_assoc run (c ∷ []) token))

close-token :
    (token : Text) (tokens : List Text) → is_cons token ≡ true → close token tokens ≡ token ∷ tokens
close-token [] tokens h = absurd (cc h)
close-token (c ∷ token) tokens h = refl

-- Each token of a line is not empty and has no delimiter in it.
pub extract_tokens-AreTokens : (line : Text) → All IsToken (extract_tokens line)
unfolding extract_tokens any
extract_tokens-AreTokens line = tokens_from-AreTokens [] line refl

-- Tokens that are written in a line with spaces between them are found again, all of them and in their
-- order: none of them may be empty or have a delimiter in it.
pub extract_tokens-join :
    (tokens : List Text) → All IsToken tokens → extract_tokens (join (codes " ") tokens) ≡ tokens
unfolding extract_tokens join any
extract_tokens-join [] h = tokens_from-end [] [] refl
extract_tokens-join (token ∷ []) ((full, plain), h) =
    tokens_from-end [] token plain ∙ close-token token [] full
extract_tokens-join (token ∷ next ∷ tokens) ((full, plain), h) =
    ap (tokens_from []) (append_assoc token (codes " ") (join (codes " ") (next ∷ tokens)))
    ∙ tokens_from-space [] token (join (codes " ") (next ∷ tokens)) plain
    ∙ close-token token _ full
    ∙ ap (λ ts. token ∷ ts) (extract_tokens-join (next ∷ tokens) h)
