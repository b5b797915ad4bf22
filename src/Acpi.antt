-- ===== src/Acpi.antt =====
-- kernel/src/acpi, as far as it is modelled: the names, lengths and values of the ACPI machine
-- language.
pub mod AmlValue
pub mod Aml
