-- ===== src/Jamule.antt =====
-- The aMule client: jamule/model.py, jamule/response.py, jamule/request.py and the connection.
pub mod Hex
pub mod Model
pub mod Request
pub mod Response
pub mod Password
pub mod Connection
pub mod Client
