-- ===== src/Api.antt =====
-- backend/app/api: what a request must satisfy, how the routes call the services, and how what these
-- raise becomes a response.
pub mod Requests
pub mod Errors
pub mod Routes
