-- ===== src/Actuator/DescriptorTests.antt =====
-- A mouse report of main/tusb/tusb_actuator.c as the host reads it.
use esp32_deskflow.Prelude.{◌≡◌, arith, ◌/◌, ◌%◌, pos, negsuc, [], ◌∷◌}
use esp32_deskflow.Actuator.Report.{mouse_report}
use esp32_deskflow.Actuator.Descriptor.{mouse_fields, host_values, number}
use esp32_deskflow.Actuator.Decoded.{host_values-mouse_report}

-- The right button, a position, and the wheel one step back.
host_values-mouse_report_example :
    host_values mouse_fields (number (mouse_report 2 16384 32767 (negsuc 0)))
    ≡ pos (2 % 2) ∷ pos (2 / 2 % 2) ∷ pos (2 / 4 % 2) ∷ pos 16384 ∷ pos 32767 ∷ negsuc 0 ∷ []
host_values-mouse_report_example =
    host_values-mouse_report 2 16384 32767 (negsuc 0) (omega arith) (omega arith) (omega arith)
      (omega arith, omega arith)
