-- ===== src/Kube.antt =====
-- The Kubernetes side: the objects that the program reads and writes, the calls that it makes, and
-- the monad in which its handlers run.
pub mod Objects
pub mod Quantity
pub mod Exec
pub mod Api
