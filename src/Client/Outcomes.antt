-- ===== src/Client/Outcomes.antt =====
-- What a result says of the steps that led to it.
use ocn_registry_v.Base.{◌≡◌, refl, Bool, true, false, if◌then◌else◌}
use ocn_registry_v.Client.Failures.{Failure}
use ocn_registry_v.Client.Wrapper.{Outcome, done, failed, ◌>=>◌}

pub bind_done :
    {A B : Type 0} (m : Outcome A) (f : A → Outcome B) (b : B)
    → (m >=> f) ≡ done b
    → (a : A) × ((m ≡ done a) × (f a ≡ done b))
bind_done (done a) f b h = (a, (refl, h))
bind_done (failed e) f b h = absurd (cc h)

pub if_done :
    {B : Type 0} (t : Bool) (o : Outcome B) (e : Failure) (b : B)
    → (if t then o else failed e) ≡ done b
    → (t ≡ true) × (o ≡ done b)
if_done true o e b h = (refl, h)
if_done false o e b h = absurd (cc h)

pub done_inj : {A : Type 0} (a b : A) → done a ≡ done b → a ≡ b
done_inj a b h = cc h
