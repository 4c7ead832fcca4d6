-- ===== src/Scenarios.antt =====
-- Concrete runs of the modelled code.
mod Events
mod Incidents
mod Processing
mod Correlation
mod Remediation
mod Paging
mod Catalog
mod Maintenance
mod Pages
mod Partitions
mod Ingest
mod Starters
mod Requests
