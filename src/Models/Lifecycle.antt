-- ===== src/Models/Lifecycle.antt =====
-- Reachability by the permitted transitions of control_plane/models/platform_deployment.py and
-- build.py.
pub mod Order
use autodeploy_platform.Prelude.{◌≡◌, true}
use autodeploy_platform.Models.DeploymentStatus
use autodeploy_platform.Models.DeploymentStatus.{DeploymentStatus}
use autodeploy_platform.Models.BuildStatus
use autodeploy_platform.Models.BuildStatus.{BuildStatus}

-- Any number of permitted transitions.
pub data Reaches (s : DeploymentStatus) : DeploymentStatus → Type 0 where
  here : Reaches s s
  next :
      {t u : DeploymentStatus}
      → Reaches s t
      → DeploymentStatus.can_transition_to t u ≡ true
      → Reaches s u

pub data BuildReaches (s : BuildStatus) : BuildStatus → Type 0 where
  here : BuildReaches s s
  next :
      {t u : BuildStatus}
      → BuildReaches s t
      → BuildStatus.can_transition_to t u ≡ true
      → BuildReaches s u

pub Reaches-trans : {s t u : DeploymentStatus} → Reaches s t → Reaches t u → Reaches s u
Reaches-trans r Reaches.here = r
Reaches-trans r (Reaches.next q h) = Reaches.next (Reaches-trans r q) h

pub BuildReaches-trans :
    {s t u : BuildStatus} → BuildReaches s t → BuildReaches t u → BuildReaches s u
BuildReaches-trans r BuildReaches.here = r
BuildReaches-trans r (BuildReaches.next q h) = BuildReaches.next (BuildReaches-trans r q) h
