-- ===== src/Serde.antt =====
-- sp/client/ups_net/serde.go: the fields of a payload, a payload as a list of fields, a framed
-- message, and the byte-wise parser of frames.
pub mod Fields
pub mod Message
pub mod NetMsg
pub mod Parser
