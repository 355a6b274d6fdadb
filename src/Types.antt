-- ===== src/Types.antt =====
-- src/pwr/pwrtypes.h: the object types, the attributes and the return codes of the Power API.
use pwrapi_ref.Prelude.{ℕ}
use pwrapi_ref.Prelude.Int.{ℤ, pos, negsuc}

pub data ObjType : Type 0 where
  platform cabinet chassis board node socket core power_plane mem nic : ObjType
  tx2_core tx2_sram tx2_mem tx2_soc : ObjType
  num_obj_types invalid not_specified : ObjType

abbrev pub obj_code : ObjType → ℤ
obj_code ObjType.platform = pos 0
obj_code ObjType.cabinet = pos 1
obj_code ObjType.chassis = pos 2
obj_code ObjType.board = pos 3
obj_code ObjType.node = pos 4
obj_code ObjType.socket = pos 5
obj_code ObjType.core = pos 6
obj_code ObjType.power_plane = pos 7
obj_code ObjType.mem = pos 8
obj_code ObjType.nic = pos 9
obj_code ObjType.tx2_core = pos 10
obj_code ObjType.tx2_sram = pos 11
obj_code ObjType.tx2_mem = pos 12
obj_code ObjType.tx2_soc = pos 13
obj_code ObjType.num_obj_types = pos 14
obj_code ObjType.invalid = negsuc 0
obj_code ObjType.not_specified = negsuc 1

pub data AttrName : Type 0 where
  pstate cstate cstate_limit sstate current voltage power power_limit_min : AttrName
  power_limit_max freq freq_limit_min freq_limit_max energy temp os_id : AttrName
  throttled_time throttled_count gov num_attr_names invalid not_specified : AttrName

abbrev pub attr_code : AttrName → ℤ
attr_code AttrName.pstate = pos 0
attr_code AttrName.cstate = pos 1
attr_code AttrName.cstate_limit = pos 2
attr_code AttrName.sstate = pos 3
attr_code AttrName.current = pos 4
attr_code AttrName.voltage = pos 5
attr_code AttrName.power = pos 6
attr_code AttrName.power_limit_min = pos 7
attr_code AttrName.power_limit_max = pos 8
attr_code AttrName.freq = pos 9
attr_code AttrName.freq_limit_min = pos 10
attr_code AttrName.freq_limit_max = pos 11
attr_code AttrName.energy = pos 12
attr_code AttrName.temp = pos 13
attr_code AttrName.os_id = pos 14
attr_code AttrName.throttled_time = pos 15
attr_code AttrName.throttled_count = pos 16
attr_code AttrName.gov = pos 17
attr_code AttrName.num_attr_names = pos 18
attr_code AttrName.invalid = negsuc 0
attr_code AttrName.not_specified = negsuc 1

abbrev pub ret_success : ℤ
ret_success = pos 0

abbrev pub ret_failure : ℤ
ret_failure = negsuc 0

-- sizeof(double), which is also sizeof(unsigned long long) and sizeof(int64_t).
abbrev pub double_size : ℕ
double_size = 8
