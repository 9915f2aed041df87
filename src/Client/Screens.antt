-- ===== src/Client/Screens.antt =====
-- UI.go: the screens that are built from the state of the game. A screen is built with its
-- `UIElement` dirty.
pub mod Menu
pub mod Rooms
pub mod Game
pub mod Controls
use kiv_ups.Window.Geometry.{Float32}
use kiv_ups.Window.Component.{RgComponent}

-- The fields of `GameState` that text boxes point to.
pub data TextRef : Type 0 where
  nickname_ref chips_str_ref server_ip_ref server_port_ref bet_amount_ref : TextRef

abbrev pub Screen : Float32 → Type 0
Screen F = RgComponent F.Float TextRef
