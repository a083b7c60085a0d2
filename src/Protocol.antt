-- ===== src/Protocol.antt =====
-- `CallDirection`, `Endpoint`, the registry of `Protocol` and the check of
-- `CodeGenerator._validate_endpoint` in compost_rpc/compost_rpc.py.
pub mod Rpc
pub mod Registry
pub mod Endpoints
pub mod Features
mod Runs
