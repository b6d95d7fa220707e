-- ===== src/Domain.antt =====
-- The domain layer: domain/errors.py, domain/models.py and domain/ip_validation.py.
pub mod Datetime
pub mod Errors
pub mod IpValidation
pub mod Models
