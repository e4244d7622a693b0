-- ===== src/Examples.antt =====
-- Concrete reports, events and histories, and what the theorems say of them.
mod Data
mod Requests
mod Lists
mod Routing
mod Views
mod Application
mod Template
mod Calls
