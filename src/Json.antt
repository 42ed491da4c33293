-- ===== src/Json.antt =====
-- The JSON library of src/json.
pub mod Value
pub mod Floats
pub mod Print
pub mod Parser
pub mod Number
pub mod Document
pub mod Consumed
pub mod Fuel
pub mod Numeral
pub mod Literal
pub mod Objects
pub mod Writable
pub mod Steps
pub mod Texts
pub mod RoundTrip
pub mod Ordered
pub mod Yields
pub mod ParsedOrder
pub mod Keys
mod Tests
