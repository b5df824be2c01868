-- ===== src/RuntimeMetadata/Reading/Frozen.antt =====
-- control_plane/deployment_runtime_metadata.py: writing and reading the mode, together.
use autodeploy_platform.Prelude.{
  String, ◌≡◌, refl, ap, sym, ◌∙◌, ◌⊎◌, inl, inr, true, Option, none, some, List, mem_text, text_eq,
  strip, lstrip, rstrip, push_stripped, is_space, Bool-cases, arith,
}
use text.Mathlib.TextEquality.{eq_iff}
use autodeploy_platform.Models.Rows.{PlatformDeployment, DeploymentEvent}
use autodeploy_platform.RuntimeMetadata.{
  nonempty_string, valid_mode, freeze, ResourceIdentity, persist_kubernetes_runtime_identity,
}
use autodeploy_platform.RuntimeMetadata.Reading.{kubernetes_deployment_mode}
use autodeploy_platform.Session.{ok}

valid_cases :
    (mode : Option String)
    → valid_mode mode ≡ true
    → (mode ≡ some "manifest") ⊎ (mode ≡ some "helm")
unfolding mem_text
valid_cases none h = cc
valid_cases (some m) h = elim (Bool-cases (text_eq m "manifest")) [
  | inl first ↦ inl (ap some ((eq_iff m "manifest").0 first))
  | inr other ↦ elim (Bool-cases (text_eq m "helm")) [
    | inl second ↦ inr (ap some ((eq_iff m "helm").0 second))
    | inr neither ↦ cc
  ]
]

accepted_mode :
    (d : PlatformDeployment) (mode namespace : Option String) (names : ResourceIdentity)
    (d' : PlatformDeployment)
    → persist_kubernetes_runtime_identity d mode namespace names ≡ ok d'
    → (valid_mode (nonempty_string mode) ≡ true)
      × (d'.kubernetes_deployment_mode ≡ freeze d.kubernetes_deployment_mode (nonempty_string mode))
unfolding persist_kubernetes_runtime_identity mem_text
accepted_mode d mode namespace names d' h = (ground arith, ground arith)

module _ (events : List DeploymentEvent) (d : PlatformDeployment) where
  read_manifest :
      d.kubernetes_deployment_mode ≡ some "manifest"
      → kubernetes_deployment_mode events d ≡ some "manifest"
  unfolding kubernetes_deployment_mode nonempty_string strip lstrip rstrip push_stripped is_space
      mem_text
  read_manifest e = rw e refl

  read_helm :
      d.kubernetes_deployment_mode ≡ some "helm" → kubernetes_deployment_mode events d ≡ some "helm"
  unfolding kubernetes_deployment_mode nonempty_string strip lstrip rstrip push_stripped is_space
      mem_text
  read_helm e = rw e refl

-- Where `persist_kubernetes_runtime_identity` accepts an identity for a deployment whose mode was
-- blank, `kubernetes_deployment_mode` reads that mode back, whatever the deployment's events, its
-- preflight metadata, its Helm release and its target say.
pub kubernetes_deployment_mode-persist_kubernetes_runtime_identity :
    (events : List DeploymentEvent) (d : PlatformDeployment) (mode namespace : Option String)
    (names : ResourceIdentity) (d' : PlatformDeployment)
    → persist_kubernetes_runtime_identity d mode namespace names ≡ ok d'
    → nonempty_string d.kubernetes_deployment_mode ≡ none
    → kubernetes_deployment_mode events d' ≡ nonempty_string mode
kubernetes_deployment_mode-persist_kubernetes_runtime_identity events d mode namespace names d' h
      blank =
    let (valid, stored) = accepted_mode d mode namespace names d' h in
    let written : d'.kubernetes_deployment_mode ≡ nonempty_string mode = stored ∙ rw blank refl in
    elim (valid_cases (nonempty_string mode) valid) [
      | inl manifest ↦ read_manifest events d' (written ∙ manifest) ∙ sym manifest
      | inr helm ↦ read_helm events d' (written ∙ helm) ∙ sym helm
    ]
