-- ===== src/Services/Distributor/Overlap.antt =====
-- src/profit_distributor.rs: the flag that keeps executions from overlapping.
use liq_ranger.Base.{◌≡◌, List, [], ◌∷◌, arith, if◌then◌else◌}
use liq_ranger.Services.Distributor.{Cron, CronEvent, fired, finished, on_cron, run_cron}

-- The flag is set exactly while one execution is under way.
abbrev pub IsExclusive : Cron → Type 0
IsExclusive c = c.active ≡ (if c.running then 1 else 0)

on_cron-IsExclusive : (c : Cron) (e : CronEvent) → IsExclusive c → IsExclusive (on_cron c e)
unfolding on_cron
on_cron-IsExclusive c fired h = ground (arith, h)
on_cron-IsExclusive c finished h = ground (arith, h)

-- However the schedule fires and executions return, there is never more than one execution under way,
-- and the flag is set exactly while there is one.
pub run_cron-IsExclusive :
    (es : List CronEvent) (c : Cron) → IsExclusive c → IsExclusive (run_cron c es)
unfolding run_cron
run_cron-IsExclusive [] c h = h
run_cron-IsExclusive (e ∷ es) c h =
    run_cron-IsExclusive es (on_cron c e) (on_cron-IsExclusive c e h)
