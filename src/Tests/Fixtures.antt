-- ===== src/Tests/Fixtures.antt =====
-- The data of the tests: floats that are integers, a handler of the network, and a table.
use kiv_ups.Prelude.{length, zero, suc, ◌<◌, ◌^◌}
use kiv_ups.Serde.Message.Safety.{IsReadable}
use kiv_ups.Prelude.{ℕ, ◌+◌, ◌-◌, ap, Bool, true, false, List, [], ◌∷◌, some, arith, Bytes, codes}
use kiv_ups.Prelude.Int.{ℤ, pos, negsuc, nat_abs}
use kiv_ups.GoLib.{FloatOps, IsExactAt}
use kiv_ups.GoLib.Decimal.{digit_count, digit_count_pos}
use kiv_ups.Serde.NetMsg.{NetMsg}
use kiv_ups.Network.{NetHandler, Wire, state_connected}
use kiv_ups.Network
use kiv_ups.Client.Data.{PlayerData, PokerTable, ProgCtx, screen_in_game}
use kiv_ups.Client.Payloads.{hidden_cards}

-- The floor of the logarithm, with minus infinity as the least int64 at 0.
abbrev pub floor_log10 : ℤ → ℤ
floor_log10 (pos zero) = negsuc 9223372036854775807
floor_log10 z = pos (digit_count (nat_abs z) - 1)

-- Floats that are integers, with the floor of the logarithm in place of the logarithm.
abbrev pub int_floats : FloatOps
int_floats = record {
  Float = ℤ;
  of_int = λ z. z;
  abs = λ z. pos (nat_abs z);
  log10 = floor_log10;
  floor = λ z. z;
  add = λ a b. pos (nat_abs a + nat_abs b);
  one = pos 1;
  to_int = λ z. z;
}

pub int_floats-IsExactAt : (z : ℤ) → IsExactAt int_floats z
int_floats-IsExactAt (pos zero) = tt
int_floats-IsExactAt (pos (suc n)) = ap pos (omega (arith, digit_count_pos (suc n)))
int_floats-IsExactAt (negsuc n) = ap pos (omega (arith, digit_count_pos (suc n)))

pub int_floats-IsReadable :
    (payload : Bytes) → length payload < 2 ^ 63 → IsReadable int_floats payload
int_floats-IsReadable payload h = (h, λ i z e. int_floats-IsExactAt z)

-- A logarithm that is rounded up to the next integer just below a power of ten.
abbrev pub rounding_floats : FloatOps
rounding_floats = record int_floats { log10 = λ z. pos (digit_count (nat_abs z + 1) - 1) }

-- Every write to a socket succeeds.
abbrev pub writes : Wire → Bytes → Bool
writes wire bytes = true

-- A handler that is connected.
abbrev pub online : NetHandler
online = record Network.init {
  conn = some 3;
  state = state_connected;
  host = codes "h";
  port = codes "1";
}

abbrev pub msg : List ℕ → List ℕ → NetMsg
msg c p = record { code = c; payload = p }

abbrev pub seated : ℕ → Bool → PlayerData
seated chips turn = record {
  chip_count = pos chips;
  round_bet = pos 0;
  total_bet = pos 0;
  cards = hidden_cards;
  is_my_turn = turn;
  is_folded = false;
  is_ready = true;
  action_taken = codes "NONE";
  action_amount = pos 0;
}

-- A table of two, where it is the turn of the second.
abbrev pub table_of : ℕ → PokerTable
table_of pot = record {
  players = (codes "ann", seated 100 false) ∷ (codes "bob", seated 300 true) ∷ [];
  community_cards = [];
  pot = pos pot;
  high_bet = pos 0;
  round_phase = codes "PreFlop";
}

-- The context of one of the players.
abbrev pub context : Bytes → ProgCtx
context nick = record {
  state = record {
    screen = screen_in_game;
    rooms = [];
    is_connecting = false;
    reconnected = false;
    server_ip = codes "h";
    server_port = codes "1";
    nickname = nick;
    chips_str = codes "300";
    table = table_of 50;
    bet_amount = [];
    showdown = false;
  };
  should_close = false;
  command_chan = [];
  msg_out_chan = [];
  ui = record {
    main_menu = false;
    connecting = false;
    reconnecting = false;
    room_select = false;
    game = false;
  };
  popup = [];
  user_input_chan = [];
}
