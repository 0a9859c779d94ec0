-- ===== src/Entity.antt =====
-- internal/domain/entity: the records and enumerations that the access checkers share. An
-- identifier (`uuid.UUID`) is a number, `uuid.Nil` is 0; a time is a number of nanoseconds; a pointer
-- is an `Option`. Each enumeration is a string type in the source: a value that none of its constants
-- spells is `other_…`. Fields that no modelled code reads are left out.
pub mod Roles
pub mod Guests
pub mod Connections
pub mod Calls
