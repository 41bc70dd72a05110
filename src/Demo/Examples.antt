-- ===== src/Demo/Examples.antt =====
-- src/main.cpp with a small serializer library, and a system that can create files.
use guthi_core.Base.{◌≡◌, refl, true, none, arith, codes}
use guthi_core.Cache.{System, file_cache}
use guthi_core.Demo.Asserts.{graphics, run_main-ok}
use guthi_core.Demo.{run_main}
use guthi_core.Serialize.Round.{value}
use guthi_core.Serialize.Small.{small, small-IsBitsery}
use guthi_core.Tracker.State.{ok}

abbrev idle : System
idle = record {
  memory_load = 0;
  now = 1000;
  files = λ n. none;
  creatable = λ n. true;
  noise = λ i. 205;
}

run_main-ok_example : run_main small 3 idle ≡ ok (value graphics, file_cache (codes "./tmp"))
run_main-ok_example = run_main-ok small small-IsBitsery idle 3 refl (omega arith)
