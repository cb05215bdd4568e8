-- ===== src/Clients.antt =====
-- src/modules/clients: the check of a client's tax id.
pub mod TaxId
pub mod TaxIdLaws
mod Tests
