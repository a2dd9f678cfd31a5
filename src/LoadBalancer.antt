-- ===== src/LoadBalancer.antt =====
-- The load balancers of src/rpc_proto and include/rpc_proto.
pub mod Weight
pub mod Tree
pub mod LocalityAware
pub mod WeightedRandom
mod Tests
