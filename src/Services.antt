-- ===== src/Services.antt =====
-- app/modules/services: the queue of a service centre, from the intake of a car to its hand-over.
pub mod StateMachine
pub mod Repository
pub mod Access
pub mod Transition
pub mod Intake
pub mod Edit
pub mod History
pub mod Invariant
pub mod Requests
pub mod Lists
