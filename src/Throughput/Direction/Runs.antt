-- ===== src/Throughput/Direction/Runs.antt =====
-- Runs of `TestDirection::from_str`, and the theorems at concrete inputs.
use niceperf.Prelude.{◌≡◌, refl}
use niceperf.Prelude.Outcome.{ok, err}
use niceperf.Throughput.Direction.{bidirectional, invalid_test_direction, from_str}

short_form : from_str "bidi" ≡ ok bidirectional
unfolding from_str
short_form = refl

case_matters : from_str "Server" ≡ err invalid_test_direction
unfolding from_str
case_matters = refl
