-- ===== src/Client.antt =====
-- sp/client/src: the state machine of the client.
pub mod Map
pub mod Data
pub mod Effects
pub mod Cards
pub mod Values
pub mod Payloads
pub mod RoomState
pub mod Logic
pub mod Validate
pub mod Enter
pub mod Input
pub mod Game
pub mod Events
pub mod Screens
pub mod Ui
pub mod Popups
pub mod Frame
pub mod Loop
pub mod Safety
