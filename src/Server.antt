-- ===== src/Server.antt =====
-- The server: docs/server.
pub mod Route
pub mod Best
pub mod Select
pub mod Filename
pub mod Response
pub mod Connection
pub mod System
pub mod Multipart
pub mod Cgi
pub mod Reply
pub mod Upload
pub mod Handle
pub mod Readable
pub mod Output
pub mod Descriptor
pub mod Clients
pub mod Event
pub mod Loop
pub mod Listen
pub mod Program
pub mod Samples
mod Tests
