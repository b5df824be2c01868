-- ===== src/Session/Keeps.antt =====
-- Conditions on the world that an action keeps, whether it returns or raises: one rule for each way
-- to build an action.
use autodeploy_platform.Prelude.{
  ℕ, String, ◌≡◌, refl, Bool, true, false, Option, none, some, if◌then◌else◌,
}
use autodeploy_platform.Session.State.{World, Fault, other}
use autodeploy_platform.Session.Actions.{
  Outcome, ok, raised, Action, pure, raise, lift, resume, ◌>>=◌, recover, try, attempt, view, when,
  none_or,
}
use autodeploy_platform.Session.Access.{found, the_deployment, the_build, the_command}

pub record Keeps {ℓ} (P : World → Type 0) {A : Type ℓ} (m : Action A) : Type 0 where
  pub after : (w : World) → P w → P (m w).1

module _ {ℓ} {P : World → Type 0} {A : Type ℓ} where
  pub pure-Keeps : (a : A) → Keeps P (pure a)
  unfolding pure
  pure-Keeps a = record { after = λ w h. h }

  pub raise-Keeps : (e : Fault) → Keeps P (raise {A = A} e)
  unfolding raise
  raise-Keeps e = record { after = λ w h. h }

  pub lift-Keeps : (r : Outcome A) → Keeps P (lift r)
  unfolding lift
  lift-Keeps r = record { after = λ w h. h }

  pub found-Keeps : (error : String) (o : Option A) → Keeps P (found error o)
  unfolding found
  found-Keeps error none = raise-Keeps (other error)
  found-Keeps error (some a) = pure-Keeps a

  pub if-Keeps : (b : Bool) (m n : Action A) → Keeps P m → Keeps P n → Keeps P (if b then m else n)
  if-Keeps true m n km kn = km
  if-Keeps false m n km kn = kn

  recover-Keeps :
      (handler : Fault → Action A) (r : Outcome A) (w : World)
      → ((e : Fault) → Keeps P (handler e))
      → P w
      → P (recover handler r w).1
  recover-Keeps handler (ok a) w k h = h
  recover-Keeps handler (raised e) w k h = (k e).after w h

  pub try-Keeps :
      (m : Action A) (handler : Fault → Action A)
      → Keeps P m
      → ((e : Fault) → Keeps P (handler e))
      → Keeps P (try m handler)
  unfolding try
  try-Keeps m handler km k = record {
    after = λ w h. recover-Keeps handler (m w).0 (m w).1 k (km.after w h);
  }

module _ {ℓ κ} {P : World → Type 0} {A : Type ℓ} {B : Type κ} where
  pub resume-Keeps :
      (f : A → Action B) (r : Outcome A) → ((a : A) → Keeps P (f a)) → Keeps P (lift r >>= f)
  unfolding ◌>>=◌
  resume-Keeps f (ok a) k = k a
  resume-Keeps f (raised e) k = raise-Keeps e

  pub bind-Keeps :
      (m : Action A) (f : A → Action B) → Keeps P m → ((a : A) → Keeps P (f a)) → Keeps P (m >>= f)
  unfolding ◌>>=◌
  bind-Keeps m f km k = record {
    after = λ w h. (resume-Keeps f (m w).0 k).after (m w).1 (km.after w h);
  }

  pub none_or-Keeps :
      (o : Option A) (m : Action B) (k : A → Action B)
      → Keeps P m
      → ((a : A) → Keeps P (k a))
      → Keeps P (none_or o m k)
  unfolding none_or
  none_or-Keeps none m k km kk = km
  none_or-Keeps (some a) m k km kk = kk a

module _ {ℓ} {P : World → Type 0} {A : Type ℓ} where
  pub attempt-Keeps : (m : Action A) → Keeps P m → Keeps P (attempt m)
  unfolding attempt
  attempt-Keeps m k = record { after = λ w h. k.after w h }

module _ {ℓ κ} {P : World → Type 0} {A : Type ℓ} {B : Type κ} where
  resume-then :
      (r : Outcome A) (f : A → Action B) (w : World)
      → P w
      → ((a : A) → r ≡ ok a → Keeps P (f a))
      → P (resume f r w).1
  resume-then (ok a) f w h k = (k a refl).after w h
  resume-then (raised e) f w h k = h

  -- What follows an action may use that the action returned.
  pub bind-then :
      (m : Action A) (f : A → Action B)
      → Keeps P m
      → ((w : World) → P w → (a : A) → (m w).0 ≡ ok a → Keeps P (f a))
      → Keeps P (m >>= f)
  unfolding ◌>>=◌
  bind-then m f km k = record {
    after = λ w h. resume-then (m w).0 f (m w).1 (km.after w h) (k w h);
  }

module _ {P : World → Type 0} where
  pub view-Keeps : Keeps P view
  unfolding view
  view-Keeps = record { after = λ w h. h }

  pub when-Keeps : (b : Bool) (m : Action (Unit {0})) → Keeps P m → Keeps P (when b m)
  when-Keeps true m k = k
  when-Keeps false m k = pure-Keeps tt

pub ruleset basic_rules = (pure-Keeps, raise-Keeps, lift-Keeps, found-Keeps, view-Keeps, bind-Keeps)

module _ {P : World → Type 0} (id : ℕ) where
  pub the_deployment-Keeps : Keeps P (the_deployment id)
  unfolding the_deployment
  the_deployment-Keeps = search basic_rules

  pub the_build-Keeps : Keeps P (the_build id)
  unfolding the_build
  the_build-Keeps = search basic_rules

  pub the_command-Keeps : Keeps P (the_command id)
  unfolding the_command
  the_command-Keeps = search basic_rules

pub ruleset keeps_rules = (
  basic_rules, none_or-Keeps, if-Keeps, try-Keeps, attempt-Keeps, when-Keeps, the_deployment-Keeps,
  the_build-Keeps, the_command-Keeps,
)
