-- ===== src/Tests.antt =====
-- Runs of the models on small inputs, at which the theorems apply.
mod Control
mod Queues
mod Sessions
mod Services
mod Planes
mod Listings
mod Registries
mod Capacity
mod Policies
mod Scaling
