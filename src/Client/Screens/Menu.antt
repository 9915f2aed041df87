-- ===== src/Client/Screens/Menu.antt =====
-- `buildMainMenu`, `buildConnectingScreen` and `buildReconnectingMenu`, which do not read the state.
use kiv_ups.Prelude.{ℕ, [], ◌∷◌, Bytes, codes}
use kiv_ups.Window.Geometry.{Float32, white, ray_white, gray, dark_gray}
use kiv_ups.Window.Component.{h_stack, v_stack}
use kiv_ups.Window.Build.{
  new_label_component, new_button_component, new_text_box_component, new_panel_component,
  new_center_component, new_bounds_box, new_stack, add_children,
}
use kiv_ups.Client.Screens.{
  TextRef, nickname_ref, chips_str_ref, server_ip_ref, server_port_ref, Screen,
}

module _ (F : Float32) where
  open F use {ratio, of_int}

  unfoldable build_centered_text_box : Bytes → TextRef → ℕ → Screen F
  build_centered_text_box id ref max_chars = new_bounds_box F (of_int 1) (of_int 1) (
      new_center_component F
        (new_panel_component F ray_white (new_text_box_component F id ref max_chars)))

  -- A label and a text box side by side.
  unfoldable menu_field : Bytes → Bytes → TextRef → ℕ → Screen F
  unfolding build_centered_text_box add_children
  menu_field text id ref max_chars = h_stack (
      add_children F (new_stack F (of_int 5))
        (new_label_component F text 20 white ∷ build_centered_text_box id ref max_chars ∷ []))

  -- A button of the usual size in a `CenterComponent`.
  unfoldable pub centered_button : Bytes → Bytes → Screen F
  centered_button id text =
      new_center_component F (new_button_component F id text (of_int 150) (of_int 50))

  unfoldable pub build_main_menu : Screen F
  unfolding menu_field centered_button add_children
  build_main_menu =
      let player_stack = add_children F (new_stack F (of_int 10)) (
        new_label_component F (codes "Player:") 20 white
        ∷ menu_field (codes "Nick:") (codes "MainMenu_NickBox") nickname_ref 10000
        ∷ menu_field (codes "Chips:") (codes "MainMenu_NickBox") chips_str_ref 100
        ∷ []) in
      let server_stack = add_children F (new_stack F (of_int 10)) (
        new_label_component F (codes "Server:") 20 white
        ∷ menu_field (codes "IP:") (codes "Server_IPBox") server_ip_ref 16
        ∷ menu_field (codes "Port:") (codes "Server_PortBox") server_port_ref 6
        ∷ []) in
      let hor_ps =
        add_children F (new_stack F (of_int 20))
          (v_stack player_stack ∷ v_stack server_stack ∷ []) in
      let menu = add_children F (new_stack F (of_int 10)) (
        new_center_component F (h_stack hor_ps)
        ∷ centered_button (codes "MainMenu_ConnectBtn") (codes "Connect")
        ∷ centered_button (codes "MainMenu_CloseBtn") (codes "Close")
        ∷ []) in
      new_bounds_box F (ratio 6 10) (ratio 8 10) (new_panel_component F dark_gray (v_stack menu))

  unfoldable pub build_connecting_screen : Screen F
  unfolding centered_button add_children
  build_connecting_screen =
      let connecting = add_children F (new_stack F (of_int 10)) (
        new_center_component F (new_label_component F (codes "Connecting...") 20 white)
        ∷ centered_button (codes "Connecting_CancelBtn") (codes "Cancel")
        ∷ []) in
      new_bounds_box F (ratio 4 10) (ratio 4 10) (new_panel_component F gray (v_stack connecting))

  unfoldable pub build_reconnecting_menu : Screen F
  unfolding centered_button add_children
  build_reconnecting_menu =
      let buttons = add_children F (new_stack F (of_int 20)) (
        centered_button (codes "Reconnect_Accept") (codes "Accept")
        ∷ centered_button (codes "Reconnect_Decline") (codes "Decline")
        ∷ []) in
      let reconnecting = add_children F (new_stack F (of_int 10)) (
        new_center_component F (new_label_component F (codes "Reconnect?") 20 white)
        ∷ h_stack buttons
        ∷ []) in
      new_bounds_box F (ratio 4 10) (ratio 4 10) (new_panel_component F gray (v_stack reconnecting))
