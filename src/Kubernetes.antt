-- ===== src/Kubernetes.antt =====
-- What the Kubernetes modes compute without a cluster (worker/executors/kubernetes,
-- worker/kubernetes_workload.py).
pub mod Names
pub mod Workload
