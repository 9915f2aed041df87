-- ===== src/Lib.antt =====
-- The client of a poker game for several players over TCP, as its Go sources define it, with the
-- theorems that its protocol and its state machine keep.
--
-- The program. The network thread (`NetHandler`, sp/client/ups_net/network.go) keeps one connection,
-- cuts the bytes that it reads into frames with the parser of sp/client/ups_net/serde.go, and puts
-- messages and changes of the connection on a channel of events. The game thread (`gameThread`,
-- sp/client/src/Gamethread.go) takes events and the inputs of the player from channels and hands them
-- to the state of a state machine (sp/client/src/StateMachine.go), which changes the context
-- (sp/client/src/Data.go), puts commands and messages on the channels to the network thread, and may
-- name the next state. The main thread draws the screen that the context names, as a tree of the
-- components of sp/client/window, and makes inputs for the game thread from clicks.
--
-- The files.
-- - Prelude: bytes, lists, tests on naturals, and int64 with its wrap-around (Prelude/Int).
-- - GoLib: what the client uses of `strconv`, of `fmt.Sprintf` with decimal verbs, of sorting, of
--   `strings.TrimSpace` and of panics. The float operations of `math` are a record that definitions
--   take as an argument; a theorem that needs it assumes that the floor of the logarithm is exact at
--   the numbers but 0 that it is about; Serde/Message/Overcount is about a number where it is not.
-- - Serde/Fields: ReadSmallInt, ReadBigInt, ReadVarInt, ReadString, their writers, and countDigits;
--   Serde/Fields/Total: the readers as functions without a panic.
-- - Serde/Message: ParseMessage; a value of type `any` is `Any`, and an offset is an int.
-- - Serde/NetMsg: NetMsg and ToString.
-- - Serde/Parser: Parser, ParseByte by phases, and ParseBytes with its loop over the slice.
-- - Network: the state of NetHandler; Network/Handler: handleConnectionLost, sendMessage, checkAlive
--   and the ticker's case of Run; Network/Buffer: processBuffer. Whether a write to the socket
--   succeeds is a function argument; what is written is recorded. Network/Liveness: the count of
--   missed answers. Network/Connect: handleCommand, handleConnect, handleDisconnect and
--   connectWithRetry, on the results of dialling. Network/Run: the rounds of Run and readerLoop.
-- - Client/Data, Client/Map, Client/Effects: the context and what handlers do to it.
-- - Client/Cards, Client/Values, Client/Payloads, Client/RoomState: TranslateCardID, type assertions
--   on parsed values, and the handlers that take a payload apart.
-- - Client/Logic, Client/Enter, Client/Input, Client/Validate, Client/Events, Client/Game: the states,
--   Enter and Exit, HandleInput, validateGameAction, HandleNetwork, and the message cases of the game.
-- - Window/Component, Window/Build: the components of sp/client/window as trees, and their
--   constructors; Window/Areas, Window/Layout: the methods Calculate, on fuel, because a
--   CenterComponent may calculate its child twice; Window/Rebuild and Window/Draw: the methods of
--   that name. float32, the answers of raygui and the strings behind the text boxes are arguments.
-- - Client/Screens: the screens of sp/client/src/UI.go; Client/Ui: handleUIEvent of
--   sp/client/src/Main.go, which makes inputs of the game thread from clicks; Client/Frame: a round
--   of the loop of main; Client/Popups: the popups.
-- - Client/Loop: gameThread, on the list of what its `select` takes; Client/Loop/Route: the graph of
--   the states.
-- - Client/Safety: where the handlers return without a panic.
-- - Tests: concrete runs.
--
-- A method on a pointer returns the new value; a panic is an `Outcome`; a send of the drawing thread
-- that finds its channel full, and so waits, is `none`; a string is the list of its bytes; logging is left out. The loop of processBuffer has the length of the buffer as its fuel,
-- which is enough because each round reads a byte; the loops over players and cards recurse on their
-- count; digits are printed with fuel for 20 of them, which every 64-bit number fits.
--
-- Not modelled: what is painted, the closing of the channels in cleanup, the server, and the C
-- programs. The mutexes are left out: each handler, each round of the drawing loop, and the
-- reconnecting loop, runs to its end before the next one starts.
pub mod Prelude
pub mod GoLib
pub mod Serde
pub mod Network
pub mod Window
pub mod Client
mod Tests
