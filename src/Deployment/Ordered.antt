-- ===== src/Deployment/Ordered.antt =====
-- The order of what the deployment scripts send.
use mathlib.Core.Path.{subst}
use mathlib.Core.List.{append_assoc, append-nil}
use ocn_registry_v.Base.{◌≡◌, refl, sym, ap, ◌∙◌, Bool, true, List, [], ◌∷◌, ◌++◌}
use ocn_registry_v.Text.{Text}
use ocn_registry_v.Client.Wrapper.{Outcome, done, failed, is_done}
use ocn_registry_v.Deployment.Hardhat.{
  Hardhat, Argument, Sent, deployed, Script, ◌>>=◌, pure, ask, send, deploy_contract, confirmations,
}

-- What was sent is the first part of a plan, and all of it if the script has finished.
pub record Progress (plan before after : List Sent) (finished : Bool) : Type 0 where
  pub sent : List Sent
  pub rest : List Sent
  pub parts : sent ++ rest ≡ plan
  pub trace : after ≡ before ++ sent
  pub whole : finished ≡ true → rest ≡ []

-- A script follows a plan, whatever is answered, and what it returns is known.
pub record Follows {A : Type 0} (V : A → Type 0) (plan : List Sent) (m : Script A) : Type 0 where
  pub at : (h : List Sent) → Progress plan h (m h).1 (is_done (m h).0)
  pub value : (h : List Sent) (a : A) → (m h).0 ≡ done a → V a

nothing_sent : (h : List Sent) (finished : Bool) → Progress [] h h finished
nothing_sent h finished = record {
  sent = [];
  rest = [];
  parts = refl;
  trace = sym (append-nil h);
  whole = λ _. refl;
}

module _ {A B : Type 0} {P Q : List Sent} where
  resumed :
      (f : A → Script B) (h t : List Sent) (r : Outcome A)
      → Progress P h t (is_done r)
      → ((a : A) → r ≡ done a → Progress Q t (f a t).1 (is_done (f a t).0))
      → let next : Outcome B × List Sent = elim r [ done a ↦ f a t | failed e ↦ (failed e, t) ] in
        Progress (P ++ Q) h next.1 (is_done next.0)
  resumed f h t (done a) p k =
      let q = k a refl in
      let all_sent : p.sent ≡ P =
        sym (append-nil p.sent) ∙ ap (λ l. p.sent ++ l) (sym (p.whole refl)) ∙ p.parts in
      record {
        sent = p.sent ++ q.sent;
        rest = q.rest;
        parts =
            append_assoc p.sent q.sent q.rest
            ∙ ap (λ l. p.sent ++ l) q.parts
            ∙ ap (λ l. l ++ Q) all_sent;
        trace = q.trace ∙ ap (λ l. l ++ q.sent) p.trace ∙ append_assoc h p.sent q.sent;
        whole = q.whole;
      }
  resumed f h t (failed e) p k = record {
    sent = p.sent;
    rest = p.rest ++ Q;
    parts = sym (append_assoc p.sent p.rest Q) ∙ ap (λ l. l ++ Q) p.parts;
    trace = p.trace;
    whole = λ e'. absurd (cc e');
  }

module _ {A B : Type 0} {V : A → Type 0} {W : B → Type 0} {P Q : List Sent} where
  pub Follows-bind :
      (m : Script A) (f : A → Script B)
      → Follows V P m
      → ((a : A) → V a → Follows W Q (f a))
      → Follows W (P ++ Q) (m >>= f)
  unfolding ◌>>=◌
  Follows-bind m f p q = record {
    at = λ h. resumed f h (m h).1 (m h).0 (p.at h) (λ a e. (q a (p.value h a e)).at (m h).1);
    value = λ h b. from h (m h).1 (m h).0 (p.value h) b;
  }
    where
      from :
          (h t : List Sent) (r : Outcome A)
          → ((a : A) → r ≡ done a → V a)
          → (b : B)
          → (let next : Outcome B × List Sent = elim r [
            | done a ↦ f a t
            | failed e ↦ (failed e, t)
          ] in
              next.0)
            ≡ done b
          → W b
      from h t (done a) v b e = (q a (v a refl)).value t b e
      from h t (failed e) v b e' = absurd (cc e')

pub returned_eq : {A : Type 0} {a b : A} → Path (Outcome A) (done a) (done b) → a ≡ b
returned_eq e = cc

pub Follows-ask :
    {A : Type 0} {V : A → Type 0} (f : List Sent → Outcome A)
    → ((h : List Sent) (a : A) → f h ≡ done a → V a)
    → Follows V [] (ask f)
Follows-ask f v = record { at = λ h. nothing_sent h _; value = v }

pub Follows-pure : {A : Type 0} {V : A → Type 0} (a : A) → V a → Follows V [] (pure a)
Follows-pure {V = V} a v = record {
  at = λ h. nothing_sent h _;
  value = λ h b e. subst V (returned_eq e) v;
}

abbrev pub Anything : {A : Type 0} → A → Type 0
Anything a = Unit

module _ (H : Hardhat) where
  pub Follows-send : (r : Sent) → Follows Anything (r ∷ []) (send H r)
  unfolding send
  Follows-send r = record { at = λ h. sent_at h (H.accept h r); value = λ h a e. tt }
    where
      sent_at :
          (h : List Sent) (o : Outcome (Unit {0}))
          → let next : Outcome (Unit {0}) × List Sent = elim o [
            | failed e ↦ (failed e, h)
            | done _ ↦ (H.wait (h ++ r ∷ []) r, h ++ r ∷ [])
          ] in
            Progress (r ∷ []) h next.1 (is_done next.0)
      sent_at h (done _) = record {
        sent = r ∷ [];
        rest = [];
        parts = refl;
        trace = refl;
        whole = λ _. refl;
      }
      sent_at h (failed e) = record {
        sent = [];
        rest = r ∷ [];
        parts = refl;
        trace = sym (append-nil h);
        whole = λ e'. absurd (cc e');
      }

  pub Follows-deploy_contract :
      (address : Text → Text)
      → ((h : List Sent) (name : Text) → H.address_of h name ≡ address name)
      → (network name : Text) (args : List Argument)
      → Follows
          (λ a. a ≡ address name)
          (deployed name args ∷ [])
          (deploy_contract H network name args)
  unfolding deploy_contract
  Follows-deploy_contract address placed network name args =
      Follows-bind (confirmations network) _ (Follows-ask {V = Anything} _ (λ h a e. tt)) λ _ _.
        Follows-bind (send H (deployed name args)) _ (Follows-send (deployed name args))
          λ _ _. Follows-ask _ (λ h a e. sym (returned_eq e) ∙ placed h name)
