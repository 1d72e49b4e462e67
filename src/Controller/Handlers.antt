-- ===== src/Controller/Handlers.antt =====
-- internal/controller/chaosexperiment_controller.go: the handlers of the actions.
pub mod Common
pub mod Steps
pub mod Scripts
pub mod Containers
pub mod Requirements
pub mod Conclusion
pub mod Injection
pub mod Stress
pub mod Network
pub mod Delay
pub mod Disk
pub mod Restart
pub mod Deployments
pub mod HostPods
pub mod DryRun
pub mod Targeted
pub mod Bounded
pub mod Attacks
pub mod NodeAttacks
pub mod Denied
pub mod Tracking
pub mod Pods
pub mod Nodes
