-- ===== src/Contract/Nodes.antt =====
-- The listing of nodes stays consistent: what the operations do to the operators and their domains.
use ocn_registry_v.Base.{
  ◌≡◌, refl, ◌∙◌, arith, Bool, true, false, ◌||◌, List, [], ◌∷◌, ◌++◌, ◌==◌, numbers_eq,
  if◌then◌else◌, contains,
}
use ocn_registry_v.Text.{Text}
use ocn_registry_v.Client.Failures.{is_full}
use ocn_registry_v.Contract.State.{State, set}
use ocn_registry_v.Contract.Operations.{with_node, without_node}

abbrev pub HasNoRepeat : List Text → Type 0
HasNoRepeat [] = Unit
HasNoRepeat (a ∷ xs) = (contains xs a ≡ false) × HasNoRepeat xs

contains-append :
    (xs : List Text) (a b : Text) → contains (xs ++ a ∷ []) b ≡ (contains xs b || b == a)
contains-append [] a b = ground arith
contains-append (x ∷ xs) a b = ground (arith, contains-append xs a b)

HasNoRepeat-append :
    (xs : List Text) (a : Text)
    → HasNoRepeat xs
    → contains xs a ≡ false
    → HasNoRepeat (xs ++ a ∷ [])
HasNoRepeat-append [] a h k = (refl, tt)
HasNoRepeat-append (x ∷ xs) a (fresh, h) k =
    (ground (arith, contains-append xs a x), HasNoRepeat-append xs a h (ground (arith, k)))

-- Every node's domain is marked as taken and belongs to one operator, and the operators that ever had
-- a node are listed once each.
pub record IsConsistent (s : State) : Type 0 where
  pub taken : (a : Text) → is_full (s.node_of a) ≡ true → s.unique_domains (s.node_of a) ≡ true
  pub distinct : (a b : Text) → is_full (s.node_of a) ≡ true → s.node_of a ≡ s.node_of b → a ≡ b
  pub listed : (a : Text) → is_full (s.node_of a) ≡ true → s.unique_operators a ≡ true
  pub known : (a : Text) → contains s.operators a ≡ s.unique_operators a
  pub once : HasNoRepeat s.operators

pub with_node-IsConsistent :
    (operator domain : Text) (s : State)
    → IsConsistent s
    → s.unique_domains domain ≡ false
    → IsConsistent (with_node operator domain s)
unfolding set
with_node-IsConsistent operator domain s h free = record {
  taken = λ a full. ground (arith, h.taken a, full);
  distinct =
      λ a b full same. ground (arith, h.distinct a b, h.taken a, h.taken b, full, same, free);
  listed = λ a full. ground (arith, h.listed a, full);
  known = λ a. ground (arith, h.known a, contains-append s.operators operator a);
  once = once (s.unique_operators operator) refl;
}
  where
    once :
        (b : Bool)
        → s.unique_operators operator ≡ b
        → HasNoRepeat (if b then s.operators else s.operators ++ operator ∷ [])
    once true e = h.once
    once false e = HasNoRepeat-append s.operators operator h.once (h.known operator ∙ e)

pub without_node-IsConsistent :
    (operator : Text) (s : State)
    → IsConsistent s
    → is_full (s.node_of operator) ≡ true
    → IsConsistent (without_node operator s)
unfolding set
without_node-IsConsistent operator s h there = record {
  taken = λ a full. ground (arith, h.taken a, h.distinct a operator, full);
  distinct = λ a b full same. ground (arith, h.distinct a b, full, same);
  listed = λ a full. ground (arith, h.listed a, full);
  known = h.known;
  once = h.once;
}
