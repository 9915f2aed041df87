-- ===== src/Client/Screens/Rooms.antt =====
-- `buildRoomSelectUI`. `visited` are the keys of the room map in the order in which `range` comes to
-- them, which Go leaves open.
use mathlib.Core.List.{Permᴰ}
use kiv_ups.Prelude.{◌≡◌, refl, List, [], ◌∷◌, ◌++◌, Option, none, some, codes}
use kiv_ups.Prelude.Int.{ℤ, pos}
use kiv_ups.GoLib.Decimal.{format_int}
use kiv_ups.GoLib.Sort.{sort, int_order, sort-Permᴰ}
use kiv_ups.Window.Geometry.{Float32, white, gray, dark_blue}
use kiv_ups.Window.Component.{h_stack, v_stack}
use kiv_ups.Window.Build.{
  new_label_component, new_panel_component, new_center_component, new_bounds_box, new_stack,
  add_children,
}
use kiv_ups.Client.Map.{IntMap, lookup_int}
use kiv_ups.Client.Data.{Room, GameState}
use kiv_ups.Client.Screens.{Screen}
use kiv_ups.Client.Screens.Menu.{centered_button}

-- The zero `Room`, which a lookup of a missing key gives.
abbrev no_room : Room
no_room = record { id = pos 0; name = []; current_players = pos 0; max_players = pos 0 }

unfoldable room_or_zero : Option Room → Room
room_or_zero none = no_room
room_or_zero (some room) = room

-- The rooms in the order of their IDs.
unfoldable rooms_at : IntMap Room → List ℤ → List Room
unfolding lookup_int room_or_zero
rooms_at m [] = []
rooms_at m (id ∷ ids) = room_or_zero (lookup_int id m) ∷ rooms_at m ids

unfoldable sorted_rooms : List ℤ → GameState → List Room
unfolding sort rooms_at
sorted_rooms visited state = rooms_at state.rooms (sort int_order visited)

module _ (F : Float32) where
  open F use {ratio, of_int}

  unfoldable pub room_button : Room → Screen F
  unfolding centered_button
  room_button room = centered_button F (codes "join_" ++ format_int room.id) (
      room.name
      ++ codes " ("
      ++ format_int room.current_players
      ++ codes "/"
      ++ format_int room.max_players
      ++ codes ")")

  unfoldable room_buttons : List Room → List (Screen F)
  unfolding room_button
  room_buttons [] = []
  room_buttons (room ∷ rooms) = room_button room ∷ room_buttons rooms

  -- What stands between the title and the two buttons at the bottom.
  unfoldable room_list : List Room → List (Screen F)
  unfolding room_buttons
  room_list [] =
      new_center_component F (new_label_component F (codes "No rooms available.") 18 gray) ∷ []
  room_list (room ∷ rooms) = room_buttons (room ∷ rooms)

  unfoldable pub build_room_select_ui : List ℤ → GameState → Screen F
  unfolding sorted_rooms room_list centered_button add_children
  build_room_select_ui visited state =
      let button_stack = add_children F (new_stack F (of_int 10)) (
        centered_button F (codes "RoomSelect_BackBtn") (codes "Back")
        ∷ centered_button F (codes "RoomSelect_RefreshBtn") (codes "Refresh")
        ∷ []) in
      let rooms = add_children F (new_stack F (of_int 5)) (
        new_label_component F (codes "Select a Room") 24 white
        ∷ (room_list (sorted_rooms visited state) ++ h_stack button_stack ∷ [])) in
      new_bounds_box F (ratio 4 10) (ratio 6 10) (new_panel_component F dark_blue (v_stack rooms))

  -- The room selection does not depend on the order in which Go visits the map of the rooms.
  build_room_select_ui-Permᴰ :
      (state : GameState) {visited again : List ℤ}
      → Permᴰ visited again
      → build_room_select_ui visited state ≡ build_room_select_ui again state
  unfolding build_room_select_ui sorted_rooms
  build_room_select_ui-Permᴰ state p = rw (sort-Permᴰ int_order p) refl
