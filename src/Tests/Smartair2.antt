-- ===== src/Tests/Smartair2.antt =====
-- The emulated SmartAir2 air conditioner at concrete values.
use haier_protocol_emulator.Prelude.{
  ℕ, ◌≡◌, List, [], ◌∷◌, ◌++◌, arith, refl, get_or, replicate, some,
}
use haier_protocol_emulator.Message.{message}
use haier_protocol_emulator.Protocol.{answers, handler_ok}
use haier_protocol_emulator.Smartair2.Server.{init_ac_state, status_request_handler}
use haier_protocol_emulator.Smartair2.Control.{group_lem}

abbrev packet : List ℕ
packet =
    0 ∷ 18 ∷ 0 ∷ 56 ∷ 0 ∷ 0x7F ∷ replicate 7 0
    ++ 3 ∷ 0 ∷ 0 ∷ 0x80 ∷ 0x10 ∷ 0 ∷ 2 ∷ 0 ∷ 0 ∷ 0 ∷ 9 ∷ []

init_ac_state-packet : init_ac_state ≡ packet
unfolding init_ac_state
init_ac_state-packet = refl

-- The room temperature 99 of a group command is left out.
group_lem_example :
    (get_or (status_request_handler 5 packet 0x01 (0x4D ∷ 0x5F ∷ 0 ∷ 99 ∷ replicate 22 1)).0 1 0
      ≡ 18)
    × ((status_request_handler 5 packet 0x01 (0x4D ∷ 0x5F ∷ 0 ∷ 99 ∷ replicate 22 1)).2
        ≡ answers 5 (
            message 0x02 0x6D5F
              (some
                (status_request_handler 5 packet 0x01 (0x4D ∷ 0x5F ∷ 0 ∷ 99 ∷ replicate 22 1)).0)
              24)
          ∷ [])
    × ((status_request_handler 5 packet 0x01 (0x4D ∷ 0x5F ∷ 0 ∷ 99 ∷ replicate 22 1)).3
        ≡ handler_ok)
group_lem_example = group_lem 5 packet (0 ∷ 99 ∷ replicate 22 1) 1 refl refl (omega arith)
