-- ===== src/Tests.antt =====
-- Runs of the theorems on concrete data.
mod Data
mod Middlewares
mod Sockets
mod Tokens
mod Tables
mod Services
mod Accounts
mod Clusters
mod Posts
mod Requests
mod Comments
mod Histories
mod Connections
mod Numbers
