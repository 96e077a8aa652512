-- ===== src/Tests.antt =====
-- A concrete environment, tables that keep their constraints, and each theorem at one input.
mod Deliveries
mod Environment
mod Roles
mod Flags
mod Requests
mod Hosts
mod Erasures
mod Registrations
mod Notices
mod Resets
mod Changes
mod Sockets
mod Mails
mod Trash
mod Platform
mod Seeds
