-- ===== src/Worker/Claims/Ownership.antt =====
-- `ensure_claim_owned` of worker/processing/claims.py against what it means to own a claim.
use autodeploy_platform.Prelude.{
  ℕ, String, ◌≡◌, refl, sym, ap, ◌∙◌, ◌↔◌, inl, inr, true, false, Option, none, some, [], ◌∷◌,
  Table, find, where_rows, order_by, insert_by, first, leb, Bool-cases, Option-cases, arith,
}
use text.Mathlib.TextEquality.{eq_iff}
use autodeploy_platform.Models.Rows.{Timestamp, PlatformDeployment, DeploymentCommand}
use autodeploy_platform.Session.{
  Environment, World, Fault, claim_lost, cancelled, ClaimLostError, DeploymentCancellationRequested,
  Outcome, ok, raised, Action, pure, raise, ◌>>=◌, ◌>>◌, view, none_or,
}
use autodeploy_platform.Worker.Claims.{
  column_eq, cancels, expected, check_owner, check_cancelled, ensure_claim_owned,
}

-- The worker holds the claim on the row that was found, since `t`.
pub record Owns (found : Option PlatformDeployment) (worker : String) (t : Timestamp) : Type 0 where
  pub row : PlatformDeployment
  pub stored : found ≡ some row
  pub at : row.claimed_at ≡ some t
  pub by : row.claimed_by ≡ some worker

-- No command asks the worker to give way.
abbrev pub NoStop : ℕ → Table DeploymentCommand → Type 0
NoStop id [] = Unit
NoStop id ((k, c) ∷ t) = (cancels id c ≡ false) × NoStop id t

column_eq_iff : (o : Option String) (s : String) → (column_eq o s ≡ true) ↔ (o ≡ some s)
column_eq_iff none s = ground arith
column_eq_iff (some t) s = (λ e. ap some ((eq_iff t s).0 e), λ e. ground (arith, eq_iff t s))

module _ {ℓ} {R : Type ℓ} where
  first-insert_by :
      (by : R → ℕ) (row : ℕ × R) (t : Table R) → (r : ℕ × R) × (first (insert_by by row t) ≡ some r)
  unfolding insert_by
  first-insert_by by (i, r) [] = ((i, r), refl)
  first-insert_by by (i, r) ((j, s) ∷ t) = elim (Bool-cases (leb (by r) (by s))) [
    | inl le ↦ ((i, r), rw le refl)
    | inr gt ↦ ((j, s), rw gt refl)
  ]

pub NoStop-iff :
    (id : ℕ) (t : Table DeploymentCommand)
    → (first (order_by (λ c. c.requested_at) (where_rows (cancels id) t)) ≡ none) ↔ NoStop id t
unfolding where_rows order_by
NoStop-iff id [] = ground arith
NoStop-iff id ((k, c) ∷ t) = elim (Bool-cases (cancels id c)) [
  | inl stop ↦
      let (row, e) =
        first-insert_by (λ (d : DeploymentCommand). d.requested_at) (k, c)
          (order_by (λ d. d.requested_at) (where_rows (cancels id) t)) in
      rw stop (λ h. cc (sym e ∙ h), λ p. cc (p.0))
  | inr go ↦ let (to, from) = NoStop-iff id t in rw go (λ h. (refl, to h), λ p. from p.1)
]

abbrev Reply : Type 0
Reply = Outcome Timestamp × World

raised_is_not_ok :
    {C : Type 0} {t : Timestamp} {e : Fault} {v w : World}
    → ◌≡◌ {A = Reply} (raised e, v) (ok t, w)
    → C
raised_is_not_ok p = cc

answer : {a t : Timestamp} {w : World} → ◌≡◌ {A = Reply} (pure a w) (ok t, w) → some a ≡ some t
unfolding pure
answer p = cc

module _ (env : Environment) (id : ℕ) (worker : String) where
  -- The part of `ensure_claim_owned` after its reading of the database.
  abbrev decide : Option PlatformDeployment → Option (ℕ × DeploymentCommand) → Action Timestamp
  decide row command = do
    at ← check_owner env id worker row
    check_cancelled env id command
    pure at

  -- Of a row that is there.
  decide_row :
      (d : PlatformDeployment) (command : Option (ℕ × DeploymentCommand)) (t : Timestamp)
      (w : World)
      → ◌≡◌ {A = Reply} (decide (some d) command w) (ok t, w)
      → Owns (some d) worker t × (command ≡ none)
  unfolding ◌>>=◌ check_owner check_cancelled none_or pure raise
  decide_row d command t w = elim (Option-cases d.claimed_at) [
    | inl free ↦ rw free (λ h. raised_is_not_ok h)
    | inr at ↦ elim (Bool-cases (column_eq d.claimed_by worker)) [
      | inl mine ↦ elim (Option-cases command) [
        | inl nothing ↦
            rw (at.1, mine, nothing)
              (λ h. (
                record { row = _; stored = refl; at = answer h; by = (column_eq_iff _ _).0 mine },
                refl,
              ))
        | inr stop ↦ rw (at.1, mine, stop.1) (λ h. raised_is_not_ok h)
      ]
      | inr other ↦ rw (at.1, other) (λ h. raised_is_not_ok h)
    ]
  ]

  decide_refuses :
      (row : Option PlatformDeployment) (command : Option (ℕ × DeploymentCommand)) (t : Timestamp)
      (w : World)
      → ◌≡◌ {A = Reply} (decide row command w) (ok t, w)
      → Owns row worker t × (command ≡ none)
  unfolding ◌>>=◌ check_owner check_cancelled none_or pure raise
  decide_refuses none command t w h = raised_is_not_ok h
  decide_refuses (some d) command t w h = decide_row d command t w h

  decide_accepts :
      (row : Option PlatformDeployment) (t : Timestamp) (w : World)
      → Owns row worker t
      → decide row none w ≡ (ok t, w)
  unfolding ◌>>=◌ check_owner check_cancelled none_or pure raise
  decide_accepts row t w o = rw (o.stored, o.at, o.by, (eq_iff worker worker).1 refl) refl

  decide_reads_only :
      (row : Option PlatformDeployment) (command : Option (ℕ × DeploymentCommand)) (w : World)
      → (decide row command w).1 ≡ w
  unfolding ◌>>=◌ check_owner check_cancelled none_or pure raise
  decide_reads_only none command w = refl
  decide_reads_only (some d) command w = ground arith

  -- Whoever does not own the claim.
  decide_loses :
      (row : Option PlatformDeployment) (command : Option (ℕ × DeploymentCommand)) (w : World)
      → ((t : Timestamp) → Owns row worker t → ⊥)
      → (error : ClaimLostError) × (error.deployment_id ≡ id)
        × (error.worker_id ≡ worker)
        × (decide row command w ≡ (raised (claim_lost error), w))
  unfolding ◌>>=◌ check_owner check_cancelled none_or pure raise
  decide_loses none command w other = (_, refl, refl, refl)
  decide_loses (some d) command w other = elim (Option-cases d.claimed_at) [
    | inl free ↦ rw free (_, refl, refl, refl)
    | inr at ↦ elim (Bool-cases (column_eq d.claimed_by worker)) [
      | inl mine ↦
          let owned : Owns (some d) worker at.0 = record {
            row = d;
            stored = refl;
            at = at.1;
            by = (column_eq_iff _ _).0 mine;
          } in
          elim (other at.0 owned) [ ]
      | inr not_mine ↦ rw (at.1, not_mine) (_, refl, refl, refl)
    ]
  ]

  -- An owner whom a stop command asks to give way.
  decide_cancels :
      (row : Option PlatformDeployment) (t : Timestamp) (w : World)
      (command : ℕ × DeploymentCommand)
      → Owns row worker t
      → (error : DeploymentCancellationRequested) × (error.deployment_id ≡ id)
        × (decide row (some command) w ≡ (raised (cancelled error), w))
  unfolding ◌>>=◌ check_owner check_cancelled none_or pure raise
  decide_cancels row t w (k, c) o =
      rw (o.stored, o.at, o.by, (eq_iff worker worker).1 refl) (_, refl, refl)

module _ (env : Environment) (id : ℕ) (worker : Option String) where
  -- `ensure_claim_owned` returns the time `t`, with the session as it was, exactly when the row is
  -- there, the worker has claimed it at `t`, and no active stop command is on the deployment.
  pub ensure_claim_owned_iff :
      (w : World) (t : Timestamp)
      → (ensure_claim_owned env id worker w ≡ (ok t, w))
        ↔ (Owns (find id w.work.deployments) (expected env worker) t × NoStop id w.work.commands)
  unfolding ensure_claim_owned ◌>>=◌ view
  ensure_claim_owned_iff w t =
      let row = find id w.work.deployments in
      let command = first (
        order_by (λ (c : DeploymentCommand). c.requested_at)
          (where_rows (cancels id) w.work.commands)) in
      (
        λ h.
            let (owner, nothing) = decide_refuses env id (expected env worker) row command t w h in
            (owner, (NoStop-iff id w.work.commands).0 nothing),
        λ (owner, go).
            rw ((NoStop-iff id w.work.commands).1 go)
              (decide_accepts env id (expected env worker) row t w owner),
      )

  pub ensure_claim_owned_reads_only : (w : World) → (ensure_claim_owned env id worker w).1 ≡ w
  unfolding ensure_claim_owned ◌>>=◌ view
  ensure_claim_owned_reads_only w = decide_reads_only env id (expected env worker) _ _ w

  pub ensure_claim_owned_loses :
      (w : World)
      → ((t : Timestamp) → Owns (find id w.work.deployments) (expected env worker) t → ⊥)
      → (error : ClaimLostError) × (error.deployment_id ≡ id)
        × (error.worker_id ≡ expected env worker)
        × (ensure_claim_owned env id worker w ≡ (raised (claim_lost error), w))
  unfolding ensure_claim_owned ◌>>=◌ view
  ensure_claim_owned_loses w other = decide_loses env id (expected env worker) _ _ w other

  -- The owner of a claim on a deployment with an active stop command is told of a cancellation of
  -- that deployment by `ensure_claim_owned`, which leaves the session as it was.
  pub ensure_claim_owned_cancels :
      (w : World) (t : Timestamp)
      → Owns (find id w.work.deployments) (expected env worker) t
      → (NoStop id w.work.commands → ⊥)
      → (error : DeploymentCancellationRequested) × (error.deployment_id ≡ id)
        × (ensure_claim_owned env id worker w ≡ (raised (cancelled error), w))
  unfolding ensure_claim_owned ◌>>=◌ view
  ensure_claim_owned_cancels w t owner stopped =
      elim (Option-cases (
        first (
          order_by (λ (c : DeploymentCommand). c.requested_at)
            (where_rows (cancels id) w.work.commands)))) [
              | inl nothing ↦ elim (stopped ((NoStop-iff id w.work.commands).0 nothing)) [ ]
              | inr command ↦
                  rw (command.1) (decide_cancels env id (expected env worker) _ t w command.0 owner)
            ]
