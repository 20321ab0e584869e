-- ===== src/Client/Handling.antt =====
-- `handleContractError`, `decodeErrorStringFromData`, `getDecodedRevert` and
-- `getReadableErrorMessage` of src/lib/registry.ts.
use ocn_registry_v.Base.{
  not, ◌&&◌, ◌||◌, Option, none, some, List, [], ◌∷◌, ◌++◌, ◌==◌, numbers_eq, leb, ltb,
  if◌then◌else◌, or_default,
}
use ocn_registry_v.Base.Lists.{length}
use ocn_registry_v.Text.{Text, codes, starts_with, includes, front, slice, split, join}
use ocn_registry_v.Base.{or_else}
use ocn_registry_v.Client.Failures.{
  Argument, plain, Revert, Failure, new_error, Decoder, joined, revert_message, is_full, text_of,
  or_unknown, non_empty, error_patterns, first_pattern,
}

-- `error.data ?? error.info?.error?.data`
abbrev raw_data : Failure → Text
raw_data e = text_of (or_else e.data_field e.info_data)

-- `msg.split(" ")[1]`
abbrev second : List Text → Text
second [] = []
second (a ∷ []) = []
second (a ∷ b ∷ texts) = b

abbrev error_selector : Text
error_selector = codes "0x08c379a0"

module _ (D : Decoder) where
  unfoldable pub decode_error_string_from_data : Text → Option Text
  decode_error_string_from_data raw =
      if not (is_full raw) || not (starts_with (codes "0x") raw) || ltb (length raw) 10
      then none
      else if not (D.to_lower (front 10 raw) == D.to_lower error_selector)
      then none
      else D.decode_string (codes "0x" ++ slice 10 raw)

  abbrev error_call : Option Text → Option Revert
  error_call none = none
  error_call (some text) = some (record { name = codes "Error"; args = plain text ∷ [] })

  unfoldable pub revert_of_data : Text → Option Revert
  revert_of_data raw =
      if is_full raw && starts_with (codes "0x") raw && ltb 10 (length raw)
      then or_else (D.parse_error raw) (
          or_else (D.parse_extra raw)
            (error_call (non_empty (text_of (decode_error_string_from_data raw)))))
      else none

  unfoldable pub revert_of_message : Text → Option Revert
  revert_of_message message =
      let selector = second (split b' ' message) in
      if is_full message && is_full selector && starts_with (codes "0x") selector
      then D.parse_error selector
      else none

  abbrev own_revert : Option Revert → Option Revert
  own_revert none = none
  own_revert (some r) = if is_full r.name then some r else none

  unfoldable pub get_decoded_revert : Failure → Option Revert
  get_decoded_revert e =
      or_else (own_revert e.revert)
        (or_else (revert_of_data (raw_data e)) (revert_of_message (text_of e.info_message)))

  abbrev revert_suffix : List Argument → Text
  revert_suffix [] = []
  revert_suffix args = codes "(" ++ join (codes ", ") (joined args) ++ codes ")"

  -- The message of an "execution reverted" without a reason and without a decoded revert.
  unfoldable pub undecoded_message : Text → Text
  undecoded_message raw =
      if is_full (text_of (decode_error_string_from_data raw))
      then codes "Transaction was reverted by the contract: "
        ++ text_of (decode_error_string_from_data raw)
      else if leb 10 (length raw)
      then codes "Transaction was reverted by the contract (revert selector: "
        ++ front 10 raw
        ++ codes "; decode failed)"
      else codes "Transaction was reverted by the contract (no revert reason decoded)"

  -- `error.reason ?? this.getDecodedRevert(error)`: an empty reason hides the revert.
  abbrev underlying : Failure → Option Revert
  underlying e = elim e.reason [ none ↦ get_decoded_revert e | some reason ↦ none ]

  unfoldable pub reverted_message : Failure → Text
  reverted_message e =
      if is_full (text_of e.reason)
      then codes "Transaction was reverted by the contract: " ++ text_of e.reason
      else elim (underlying e) [
        | none ↦ undecoded_message (raw_data e)
        | some r ↦
            codes "Transaction was reverted by the contract: " ++ r.name ++ revert_suffix r.args
      ]

  unfoldable pub get_readable_error_message : Failure → Text
  get_readable_error_message e =
      let lowered = D.to_lower (text_of e.message) in
      if includes (codes "execution reverted") lowered
      then reverted_message e
      else or_default (first_pattern lowered error_patterns)
          (codes "Transaction failed: " ++ or_unknown (text_of e.message))

  -- The error that is thrown instead.
  unfoldable pub handle_contract_error : Failure → Failure
  handle_contract_error e = elim (get_decoded_revert e) [
    | some r ↦ new_error (revert_message r)
    | none ↦
        if is_full (text_of e.reason)
        then new_error (codes "Transaction was reverted by the contract: " ++ text_of e.reason)
        else new_error (get_readable_error_message e)
  ]
