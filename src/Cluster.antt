-- ===== src/Cluster.antt =====
-- The library that the end-to-end tests are written with (src/common/k8stest). The answers of the API
-- server, of the control plane and of the nodes are parameters.
pub mod Checks
pub mod Cleanup
pub mod Nodes
pub mod Addresses
pub mod Deployments
pub mod Pods
pub mod Restarts
pub mod Checksums
pub mod Replicas
pub mod Claims
pub mod NewClaims
