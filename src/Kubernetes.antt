-- ===== src/Kubernetes.antt =====
-- pkg/driver/kubernetes: the driver of builders that run as deployments.
pub mod Manifest
pub mod Config
pub mod Pods
pub mod Operations
pub mod Creation
pub mod Waiting
pub mod Bootstrap
pub mod Making
pub mod Connection
pub mod Builder
pub mod Credentials
