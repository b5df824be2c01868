-- ===== src/Kubernetes/Names/Bounds.antt =====
-- The lengths of the names of worker/executors/kubernetes/names.py.
use Prim.Native.Nat.{max}
use Prim.Native.Char.{Char}
use Prim.Native.String.{count, ◌++◌}
use text.Mathlib.TextLemmas.{length-nil, length-cons, length-append}
use autodeploy_platform.Prelude.{
  ℕ, zero, suc, ◌+◌, ◌-◌, ◌≤◌, String, ◌≡◌, Option, truthy, Bool-cases, inl, inr, slice_text,
  is_dash, arith, lower, is_lower_alnum,
}
use autodeploy_platform.Models.Rows.{Project, PlatformDeployment}
use autodeploy_platform.Kubernetes.Names.{
  keep_chars, push_unless_dash, rstrip_dashes, or_fallback, dns_slug, workload_name, id_text,
  project_id_suffix, manifest_deployment_name, manifest_service_name, manifest_service_suffix,
  helm_release_name,
}

pub count-slice_text : (n : ℕ) (s : String) → count (slice_text n s) ≤ n
unfolding slice_text
count-slice_text n String.[] = omega (arith, length-nil)
count-slice_text zero (String.◌∷◌ c s) = omega (arith, length-nil)
count-slice_text (suc n) (String.◌∷◌ c s) =
    omega (arith, length-cons c (slice_text n s), count-slice_text n s)

count-push_unless_dash : (c : Char) (s : String) → count (push_unless_dash c s) ≤ suc (count s)
unfolding push_unless_dash
count-push_unless_dash c String.[] = elim (Bool-cases (is_dash c)) [
  | inl dash ↦ rw dash (omega (arith, length-nil))
  | inr other ↦ rw other (omega (arith, length-nil, length-cons c ""))
]
count-push_unless_dash c (String.◌∷◌ d s) =
    omega (arith, length-cons c (String.◌∷◌ d s), length-cons d s)

pub count-rstrip_dashes : (s : String) → count (rstrip_dashes s) ≤ count s
unfolding rstrip_dashes
count-rstrip_dashes String.[] = omega arith
count-rstrip_dashes (String.◌∷◌ c s) =
    omega
      (arith, count-push_unless_dash c (rstrip_dashes s), count-rstrip_dashes s, length-cons c s)

-- What is cut to a length and then loses its last dashes.
count-cut : (n : ℕ) (s : String) → count (rstrip_dashes (slice_text n s)) ≤ n
count-cut n s = omega (arith, count-rstrip_dashes (slice_text n s), count-slice_text n s)

count-or_fallback :
    (s fallback : String) (n : ℕ)
    → count s ≤ n
    → count fallback ≤ n
    → count (or_fallback s fallback) ≤ n
count-or_fallback s fallback n h k = elim (Bool-cases (truthy s)) [
  | inl full ↦ rw full h
  | inr empty ↦ rw empty k
]

-- A slug is no longer than it may be.
pub count-dns_slug : (value fallback : String) (n : ℕ) → count (dns_slug value fallback n) ≤ n
unfolding dns_slug
count-dns_slug value fallback n =
    count-or_fallback _ _ n (count-cut n _) (count-slice_text n fallback)

count-project_id_suffix : (id n : ℕ) → 7 ≤ n → count (project_id_suffix id n) ≤ n
unfolding project_id_suffix
count-project_id_suffix id n h =
    let kept = keep_chars is_lower_alnum (lower (id_text id)) in
    omega (
      arith,
      count-rstrip_dashes (or_fallback (slice_text n kept) "unknown"),
      count-or_fallback (slice_text n kept) "unknown" n (count-slice_text n kept) h,
    )

count-joined : (a b c d : String) → count (a ++ b ++ c ++ d) ≡ count a + count b + count c + count d
count-joined a b c d =
    omega (arith, length-append a (b ++ c ++ d), length-append b (c ++ d), length-append c d)

module _ (project : Project) where
  count-manifest_deployment_name :
      (id n : ℕ) → 31 ≤ n → count (manifest_deployment_name project id n) + 4 ≤ n
  unfolding manifest_deployment_name workload_name
  count-manifest_deployment_name id n h =
      let suffix = project_id_suffix id 20 in
      let room = max 1 (n - 4 - (4 + count suffix + 2)) in
      omega (
        arith,
        count-joined "paas-" (dns_slug project.name "app" room) "-" suffix,
        count-dns_slug project.name "app" room,
        count-project_id_suffix id 20 (omega arith),
      )

  -- Where at least 31 characters are allowed, the manifest's names for the deployment and the
  -- service and the name of a Helm release have no more characters than are allowed, and the first
  -- leaves room for the suffix of the second.
  pub names_fit :
      (project_id deployment_id n : ℕ) (deployment : Option PlatformDeployment)
      → 31 ≤ n
      → (count (manifest_deployment_name project deployment_id n) + count manifest_service_suffix
          ≤ n)
        × (count (manifest_service_name project deployment_id n) ≤ n)
        × (count (helm_release_name project_id project deployment n) ≤ n)
  unfolding manifest_service_name helm_release_name
  names_fit project_id deployment_id n deployment h =
      let fits = count-manifest_deployment_name deployment_id n h in
      let joined =
        length-append (manifest_deployment_name project deployment_id n) manifest_service_suffix in
      (omega (arith, fits), omega (arith, joined, fits), count-cut n _)
