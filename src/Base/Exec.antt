-- ===== src/Base/Exec.antt =====
-- Asynchronous functions that act on the outside world and may throw: a state is passed along, and
-- what was done before a throw stays done. Errors are shown by their messages.
use Prim.Native.String.{String}
use mathlib.Core.Path.{◌≡◌, refl, ap, subst₂}
use mathlib.Core.Bool.{Bool, true, false}
use ocn_registry_v.Base.Equality.{if◌then◌else◌}

pub data Result {ℓ} (A : Type ℓ) : Type ℓ where
  ok : A → Result A
  err : String → Result A

abbrev pub Exec {ℓ} : Type ℓ → Type ℓ → Type ℓ
Exec S A = S → Result A × S

module _ {ℓ} {S A : Type ℓ} where
  abbrev pub pure : A → Exec S A
  pure a s = (ok a, s)

  abbrev pub throw : String → Exec S A
  throw message s = (err message, s)

  -- a value that depends on the state, or an error, with no effect
  abbrev pub ask : (S → Result A) → Exec S A
  ask f s = (f s, s)

module _ {ℓ} {S A B : Type ℓ} where
  abbrev pub resume : (A → Exec S B) → S → Result A → Result B × S
  resume f s (ok a) = f a s
  resume f s (err message) = (err message, s)

  infixl 5 ◌>>=◌ ◌>>◌
  unfoldable pub ◌>>=◌ : Exec S A → (A → Exec S B) → Exec S B
  ◌>>=◌ m f s = resume f (m s).1 (m s).0

  abbrev pub ◌>>◌ : Exec S A → Exec S B → Exec S B
  m >> n = m >>= λ _. n

  -- What a run that returns has gone through.
  pub >>=-eq-ok :
      (m : Exec S A) (f : A → Exec S B) (s : S) {b : B} {t : S}
      → (m >>= f) s ≡ (ok b, t)
      → (a : A) × (u : S) × (m s ≡ (ok a, u)) × (f a u ≡ (ok b, t))
  unfolding ◌>>=◌
  >>=-eq-ok m f s {b} {t} h = go (m s) refl h
    where
      go :
          (r : Result A × S)
          → m s ≡ r
          → resume f r.1 r.0 ≡ (ok b, t)
          → (a : A) × (u : S) × (m s ≡ (ok a, u)) × (f a u ≡ (ok b, t))
      go (ok a, u) e k = (a, u, e, k)
      go (err message, u) e k = absurd (cc k)

-- `if (c) { … }` with no other branch
abbrev pub when : {S : Type 0} → Bool → Exec S (Unit {0}) → Exec S (Unit {0})
when b m = if b then m else pure tt

-- A relation between the states before and after, on all runs, those that throw included.
pub record IsPreorder {ℓ} {S : Type ℓ} (R : S → S → Type ℓ) : Type ℓ where
  pub same : (s : S) → R s s
  pub chain : (s t u : S) → R s t → R t u → R s u

pub record Moves {ℓ} {S A : Type ℓ} (R : S → S → Type ℓ) (m : Exec S A) : Type ℓ where
  pub at : (s : S) → R s (m s).1

module _ {ℓ} {S A : Type ℓ} {R : S → S → Type ℓ} (p : IsPreorder R) where
  pub Moves-pure : (a : A) → Moves R (pure {S = S} a)
  Moves-pure a = record { at = p.same }

  pub Moves-throw : (message : String) → Moves R (throw {S = S} {A = A} message)
  Moves-throw message = record { at = p.same }

  pub Moves-ask : (f : S → Result A) → Moves R (ask f)
  Moves-ask f = record { at = p.same }

  pub Moves-if :
      (b : Bool) (m n : Exec S A)
      → (b ≡ true → Moves R m)
      → (b ≡ false → Moves R n)
      → Moves R (if b then m else n)
  Moves-if true m n h k = h refl
  Moves-if false m n h k = k refl

module _ {ℓ} {S A B : Type ℓ} {R : S → S → Type ℓ} (p : IsPreorder R) where
  pub Moves-bind :
      (m : Exec S A) (f : A → Exec S B) → Moves R m → ((a : A) → Moves R (f a)) → Moves R (m >>= f)
  unfolding ◌>>=◌
  Moves-bind m f h k = record { at = λ s. go s (m s).1 (m s).0 (h.at s) }
    where
      go : (s t : S) (r : Result A) → R s t → R s (resume f t r).1
      go s t (ok a) st = p.chain s t _ st ((k a).at t)
      go s t (err message) st = st

  -- The rest may use what is known of a value that does not depend on the state.
  pub Moves-bind-known :
      (r : Result A) (f : A → Exec S B)
      → ((a : A) → r ≡ ok a → Moves R (f a))
      → Moves R (ask (λ s. r) >>= f)
  unfolding ◌>>=◌
  Moves-bind-known (ok a) f h = record { at = (h a refl).at }
  Moves-bind-known (err message) f h = record { at = p.same }

pub ruleset moves_rules = (Moves-pure, Moves-throw, Moves-ask, Moves-if, Moves-bind)

-- A postcondition of the runs that return. Only the last step of a chain decides it.
pub record Ensures {ℓ} {S A : Type ℓ} (Q : A → S → Type ℓ) (m : Exec S A) : Type ℓ where
  pub at : (s t : S) (a : A) → m s ≡ (ok a, t) → Q a t

module _ {ℓ} {S A : Type ℓ} (Q : A → S → Type ℓ) where
  -- What a run returned, put for what its equation says.
  pub returned_subst : {a b : A} {s t : S} → Path (Result A × S) (ok a, s) (ok b, t) → Q a s → Q b t
  returned_subst {a} e q = subst₂ Q (ap (λ x. value x.0) e) (ap (λ x. x.1) e) q
    where
      value : Result A → A
      value (ok c) = c
      value (err message) = a

module _ {ℓ} {S A : Type ℓ} {Q : A → S → Type ℓ} where
  pub Ensures-pure : (a : A) → ((s : S) → Q a s) → Ensures Q (pure {S = S} a)
  Ensures-pure a h = record { at = λ s t b e. returned_subst Q e (h s) }

  pub Ensures-if :
      (b : Bool) (m n : Exec S A) → Ensures Q m → Ensures Q n → Ensures Q (if b then m else n)
  Ensures-if true m n h k = h
  Ensures-if false m n h k = k

module _ {ℓ} {S A B : Type ℓ} {Q : B → S → Type ℓ} where
  pub Ensures-bind :
      (m : Exec S A) (f : A → Exec S B) → ((a : A) → Ensures Q (f a)) → Ensures Q (m >>= f)
  Ensures-bind m f h = record {
    at = λ s t b e. let (a, u, _, k) = >>=-eq-ok m f s e in (h a).at u t b k;
  }

  pub Ensures-bind-known :
      (r : Result A) (f : A → Exec S B)
      → ((a : A) → r ≡ ok a → Ensures Q (f a))
      → Ensures Q (ask (λ s. r) >>= f)
  unfolding ◌>>=◌
  Ensures-bind-known (ok a) f h = record { at = (h a refl).at }
  Ensures-bind-known (err message) f h = record { at = λ s t b e. absurd (cc e) }

pub ruleset ensures_rules = (Ensures-pure, Ensures-if, Ensures-bind)
