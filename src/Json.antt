-- ===== src/Json.antt =====
-- encoding/json on the service's structs: a struct is a table of its fields, with the names that the
-- tags of the source give them.
pub mod Value
pub mod Number
pub mod Kind
pub mod Struct
pub mod Map
pub mod Postfix
