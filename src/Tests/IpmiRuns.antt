-- ===== src/Tests/IpmiRuns.antt =====
-- A run of the plugin that reads the power of a node from a file.
use pwrapi_ref.Prelude.{ℕ, ◌+◌, ◌≡◌, refl, true, some}
use pwrapi_ref.Prelude.Int.{ℤ, pos, eqb_ℤ}
use pwrapi_ref.Types.{AttrName, ret_success}
use pwrapi_ref.Meta.{ipmi_plan}
use pwrapi_ref.Ipmi.{System, has_node_power, read}
use pwrapi_ref.Ipmi.Offered.{offers, read-offers}
use pwrapi_ref.Tests.Fixtures.{whole}

abbrev node : System ℤ ℕ
node = record { power = λ w. (some (pos 350), w + 1); clock = λ w. (pos w, w) }

read-offers_example :
    eqb_ℤ (read whole node true AttrName.temp 4).0.status ret_success
    ≡ offers (ipmi_plan (has_node_power whole node 2).0) 4 AttrName.temp
read-offers_example = read-offers whole node (some (pos 350)) (λ w. refl) true AttrName.temp 2 4
