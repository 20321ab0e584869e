-- ===== src/PreCommit/Keys.antt =====
-- Tokens and keys: `isValidPrivateKey`, `normalizeKey`, `isKnownPlaceholderKey`, `isSafeHashFieldLine`
-- and `extractTokens` of scripts/pre-commit-check.ts.
use ocn_registry_v.Base.{
  ℕ, Bool, false, not, ◌&&◌, ◌||◌, Option, none, some, List, [], ◌∷◌, ◌++◌, map, ◌==◌, nat_eq,
  numbers_eq, ltb, if◌then◌else◌, contains,
}
use ocn_registry_v.Base.Lists.{length}
use ocn_registry_v.Text.{Text, codes, starts_with, is_space, all_hex}

abbrev pub known_test_keys : List Text
known_test_keys = map codes (
    "0xac0974bec39a17e36ba4a6b4d238ff944bacb478cbed5efcae784d7bf4f2ff80"
    ∷ "0x59c6995e998f97a5a0044966f0945389dc9e86dae88c7a8412f4603b6b78690d"
    ∷ "0x5de4111afa1a4b94908f83103eb1f1706367c2e68ca870fc3fb9a804cdab365a"
    ∷ "0x7c852118294e51e653712a81e05800f419141751be58f605c371e15141b007a6"
    ∷ "0x47e179ec197488593b187f80a00eb0da91f1b9d0b13f8733639f19c30a34926a"
    ∷ "0x8b3a350cf5c34c9194ca85829a2df0ec3153be0318b5e2d3348e872092edffba"
    ∷ "0x92db14e403b83dfe3df233f83dfa3a0d7096f21ca9b0d6d6b8d88b2b4ec1564e"
    ∷ "0x4bbbf85ce3377467afe5d46f804f221813b2bb87f24d81f60f1fcdbf7cbf4356"
    ∷ "0xdbda1821b80551c9d65939329250298aa3472ba22feea921c0cf5d620ea67b97"
    ∷ "0x2a871d0798f97d79848a013d4936a73bf4cc922c825d33c1cf7073dff6d409c6"
    ∷ "ac0974bec39a17e36ba4a6b4d238ff944bacb478cbed5efcae784d7bf4f2ff80"
    ∷ "59c6995e998f97a5a0044966f0945389dc9e86dae88c7a8412f4603b6b78690d"
    ∷ "5de4111afa1a4b94908f83103eb1f1706367c2e68ca870fc3fb9a804cdab365a" ∷ [])

abbrev pub known_placeholder_keys : List Text
known_placeholder_keys =
    codes "0xaaaaaaaaaaaaaaaaaaaaaaaaaaaaaaaaaaaaaaaaaaaaaaaaaaaaaaaaaaaaaaaa" ∷ []

abbrev pub safe_hash_fields : List Text
safe_hash_fields =
    map codes
      ("txHash" ∷ "transactionHash" ∷ "blockHash" ∷ "blockhash" ∷ "codeHash" ∷ "storageHash" ∷ [])

-- What the script uses of the JavaScript engine and of ethers.
pub record Platform : Type 0 where
  -- `toLowerCase()`
  pub to_lower : Text → Text
  -- whether `new Wallet(key)` returns
  pub is_wallet : Text → Bool

-- `["'`]`
unfoldable pub is_quote : ℕ → Bool
is_quote c = c == b'"' || c == 39 || c == b'`'

-- `replace(/^["'`]/, '')`
unfoldable pub strip_first : Text → Text
strip_first [] = []
strip_first (c ∷ text) = if is_quote c then text else c ∷ text

-- `replace(/[…]$/, '')`
unfoldable pub strip_last : (ℕ → Bool) → Text → Text
strip_last p [] = []
strip_last p (c ∷ []) = if p c then [] else c ∷ []
strip_last p (c ∷ d ∷ text) = c ∷ strip_last p (d ∷ text)

-- The two replacements that both functions begin with.
unfoldable pub cleaned : Text → Text
cleaned token = strip_last (λ c. c == b',' || c == b';') (strip_last is_quote (strip_first token))

-- `extractTokens`: the maximal runs of what is no delimiter.
unfoldable pub is_delimiter : ℕ → Bool
is_delimiter c =
    is_space c
    || contains (b'=' ∷ b':' ∷ b',' ∷ b';' ∷ b'(' ∷ b')' ∷ b'[' ∷ b']' ∷ b'{' ∷ b'}' ∷ []) c

abbrev pub close : Text → List Text → List Text
close [] tokens = tokens
close (c ∷ run) tokens = (c ∷ run) ∷ tokens

unfoldable pub tokens_from : Text → Text → List Text
unfolding is_delimiter
tokens_from run [] = close run []
tokens_from run (c ∷ line) =
    let closed = close run (tokens_from [] line) in
    let longer = tokens_from (run ++ c ∷ []) line in if is_delimiter c then closed else longer

unfoldable pub extract_tokens : Text → List Text
extract_tokens line = tokens_from [] line

-- `/^\s*"([^"]+)"\s*:/`, one part after the other.
unfoldable pub skip_space : Text → Text
skip_space [] = []
skip_space (c ∷ text) = let rest = skip_space text in if is_space c then rest else c ∷ text

unfoldable pub quoted_from : Text → Text → Option (Text × Text)
quoted_from field [] = none
quoted_from field (c ∷ text) =
    let longer = quoted_from (field ++ c ∷ []) text in
    if c == b'"' then some (field, text) else longer

unfoldable pub colon_follows : Text → Bool
colon_follows text = starts_with (b':' ∷ []) (skip_space text)

unfoldable pub is_safe_field : Option (Text × Text) → Bool
is_safe_field none = false
is_safe_field (some (field, rest)) =
    not (field == []) && colon_follows rest && contains safe_hash_fields field

unfoldable pub after_quote : Text → Option (Text × Text)
after_quote [] = none
after_quote (c ∷ text) = if c == b'"' then quoted_from [] text else none

unfoldable pub is_safe_hash_field_line : Text → Bool
is_safe_hash_field_line line = is_safe_field (after_quote (skip_space line))

module _ (P : Platform) where
  unfoldable pub with_prefix : Text → Text
  with_prefix key = if length key == 64 && all_hex key then b'0' ∷ b'x' ∷ key else key

  unfoldable pub is_valid_private_key : Text → Bool
  is_valid_private_key token =
      let key = cleaned token in
      if ltb (length key) 64 || ltb 66 (length key)
      then false
      else if not (starts_with (codes "0x") (with_prefix key))
          || not (length (with_prefix key) == 66)
      then false
      else P.is_wallet (with_prefix key)

  unfoldable pub normalize_key : Text → Text
  normalize_key key =
      let lowered = P.to_lower (cleaned key) in
      if not (starts_with (codes "0x") lowered) && length lowered == 64
      then b'0' ∷ b'x' ∷ lowered
      else lowered

  unfoldable pub is_known_placeholder_key : Text → Bool
  is_known_placeholder_key token = contains known_placeholder_keys (normalize_key token)
