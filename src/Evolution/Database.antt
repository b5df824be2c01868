-- ===== src/Evolution/Database.antt =====
-- The change of the whole database, and what keeps within it.
use autodeploy_platform.Prelude.{
  ℕ, ◌≡◌, sym, ◌∙◌, ap, some, List, [], ◌++◌, Table, find, modify, find-modify, ◌==◌, ==_iff,
  Bool-cases, inl, inr,
}
use mathlib.Core.List.{append_assoc, append-nil}
use autodeploy_platform.Models.Rows.{DeploymentEvent, Db}
use autodeploy_platform.Evolution.Rows.{
  Evolves, Evolves-refl, Evolves-trans, BuildEvolves, BuildEvolves-refl, BuildEvolves-trans,
  CommandEvolves, CommandEvolves-refl, CommandEvolves-trans,
}

-- No row goes away, and each changes as `E` says. Rows may be added.
abbrev pub Rows {ℓ} : {R : Type ℓ} → (R → R → Type 0) → Table R → Table R → Type ℓ
Rows {R} E t t' = (k : ℕ) (r : R) → find k t ≡ some r → (r' : R) × (find k t' ≡ some r') × E r r'

pub record DbEvolves (a b : Db) : Type 0 where
  pub deployments : Rows Evolves a.deployments b.deployments
  pub builds : Rows BuildEvolves a.builds b.builds
  pub commands : Rows CommandEvolves a.commands b.commands
  pub events : (added : List DeploymentEvent) × (b.events ≡ a.events ++ added)

module _ {R : Type 0} (E : R → R → Type 0) where
  pub Rows-refl : ((r : R) → E r r) → (t : Table R) → Rows E t t
  Rows-refl e t k r h = (r, h, e r)

  pub Rows-trans :
      ((a b c : R) → E a b → E b c → E a c)
      → (s t u : Table R) → Rows E s t
      → Rows E t u
      → Rows E s u
  Rows-trans e s t u p q k a h =
      let (b, hb, ab) = p k a h in let (c, hc, bc) = q k b hb in (c, hc, e a b c ab bc)

  pub modify-Rows :
      ((r : R) → E r r)
      → (id : ℕ) (f : R → R) (t : Table R) → ((r : R) → find id t ≡ some r → E r (f r))
      → Rows E t (modify id f t)
  modify-Rows e id f t h k r found = elim (Bool-cases (id == k)) [
    | inl same ↦ (f r, rw (find-modify, same, found), h r (rw ((==_iff id k).0 same) found))
    | inr other ↦ (r, rw (find-modify, other) found, e r)
  ]

pub DbEvolves-refl : (db : Db) → DbEvolves db db
DbEvolves-refl db = record {
  deployments = Rows-refl Evolves Evolves-refl db.deployments;
  builds = Rows-refl BuildEvolves BuildEvolves-refl db.builds;
  commands = Rows-refl CommandEvolves CommandEvolves-refl db.commands;
  events = ([], sym (append-nil db.events));
}

pub DbEvolves-trans : (a b c : Db) → DbEvolves a b → DbEvolves b c → DbEvolves a c
DbEvolves-trans a b c p q = record {
  deployments =
      Rows-trans Evolves (λ x y z. Evolves-trans) a.deployments b.deployments c.deployments
        p.deployments q.deployments;
  builds =
      Rows-trans BuildEvolves (λ x y z. BuildEvolves-trans) a.builds b.builds c.builds p.builds
        q.builds;
  commands =
      Rows-trans CommandEvolves (λ x y z. CommandEvolves-trans) a.commands b.commands c.commands
        p.commands q.commands;
  events =
      let (added, e) = p.events in
      let (more, e') = q.events in
      (added ++ more, e' ∙ ap (λ es. es ++ more) e ∙ append_assoc a.events added more);
}
