-- ===== src/Mongo.antt =====
-- backend/mongodb: the connection to a MongoDB server and the job store on it. The official driver
-- and the server are parameters, in Mongo.Driver.
pub mod Driver
pub mod Connection
pub mod Requests
pub mod JobStore
pub mod Laws
pub mod Refinement
pub mod Lifecycle
