-- ===== src/Packages.antt =====
-- Package manifests, their dependency resolution (src/plaik_core/dependencies.py) and the registry
-- of installed packages (src/plaik_core/packages.py).
pub mod Manifest
pub mod Dependencies
pub mod Registry
mod Examples
