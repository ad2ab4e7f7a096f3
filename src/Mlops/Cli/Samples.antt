-- ===== src/Mlops/Cli/Samples.antt =====
-- The promote command on the sample registry.
use vn_robotics.Prelude.{◌≡◌, false, some, ◌⊎◌}
use vn_robotics.Mlops.Gates.Samples.{hundredths, names}
use vn_robotics.Mlops.Registry.Samples.{state}
use vn_robotics.Mlops.Cli.{promote_command}
use vn_robotics.Mlops.Cli.Gated.{Admitted, promote_command-Admitted}

promote_command-Admitted_example :
    ((promote_command names 6 (some "bbbb") "" false state).1 ≡ state)
    ⊎ Admitted names 6 "" false state (promote_command names 6 (some "bbbb") "" false state).1
promote_command-Admitted_example = promote_command-Admitted names 6 (some "bbbb") "" false state
