-- ===== src/Tests/Threads.antt =====
-- The loops of the network thread at concrete inputs.
use kiv_ups.Prelude.{◌≡◌, refl, true, [], ◌∷◌, none, codes}
use kiv_ups.Network.{NetHandler, net_shutdown}
use kiv_ups.Network.Run.{command, message, stopped, run, run-net_shutdown}
use kiv_ups.Tests.Fixtures.{writes, online, msg}

run-net_shutdown_example :
    (after : NetHandler) × (run writes
        (command net_shutdown none ∷ message (msg (codes "GMLV") []) ∷ [])
        online
      ≡ stopped after)
    × (after.shutdown ≡ true)
    × (after.conn ≡ none)
run-net_shutdown_example =
    run-net_shutdown writes none (message (msg (codes "GMLV") []) ∷ []) online refl
