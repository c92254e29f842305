-- ===== src/Tests.antt =====
-- Concrete runs of the models, and the theorems at inputs that meet their hypotheses.
mod Raft
mod Cluster
mod Votes
mod Storage
mod Pages
mod Elections
mod Files
mod Requests
