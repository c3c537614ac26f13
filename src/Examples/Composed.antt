-- ===== src/Examples/Composed.antt =====
-- The engine with the reader of Morpho on concrete answers.
use liq_ranger.Base.{◌^◌, ◌≡◌, refl, some, [], ◌∷◌, arith}
use liq_ranger.Services.Pipeline.{
  quoted, simulated, refreshed, broadcast, process_payload, build_liquidation_job,
}
use liq_ranger.Services.Pipeline.Reported.{with_reader, process_payload-found}
use liq_ranger.Examples.{short_hex}
use liq_ranger.Examples.Readers.{chain, text, profile, evaluate_at}
use liq_ranger.Examples.Services.{ports, quote}

process_payload-found_example :
    (process_payload
      (with_reader short_hex (10 ^ 36) (λ w. chain (10 ^ 36)) (ports 51 profile))
      (record { profile = profile; block_number = 12 })
      (record { world = 0; trace = [] })).1.trace
    ≡ broadcast (build_liquidation_job profile (quote 51)) 21_000 (some 77)
      ∷ refreshed text (some profile)
      ∷ simulated 12 (build_liquidation_job profile (quote 51)) (some 21_000)
      ∷ quoted 2 1 52 (some (quote 51))
      ∷ []
process_payload-found_example =
    process_payload-found short_hex (10 ^ 36) (λ w. chain (10 ^ 36)) (ports 51 profile) text profile
      12 0 1 2 (quote 51) 21_000 evaluate_at refl (omega arith) refl refl
