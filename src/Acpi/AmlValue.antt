-- ===== src/Acpi/AmlValue.antt =====
-- The values of kernel/src/acpi/aml/namespace.rs and namedobj.rs, the errors of mod.rs and the
-- execution context of parser.rs. A text is its bytes, a pointer to a function its address, and a
-- map a list of pairs.
use faastr.Common.{ℕ, Bool, List, Option}

abbrev pub Bytes : Type 0
Bytes = List ℕ

pub data RegionSpace : Type 0 where
  system_memory system_io pci_config embedded_control sm_bus system_cmos : RegionSpace
  pci_bar_target ipmi general_purpose_io generic_serial_bus : RegionSpace
  user_defined : ℕ → RegionSpace

pub data AccessAttrib : Type 0 where
  attrib_bytes attrib_raw_bytes attrib_raw_process_bytes : ℕ → AccessAttrib
  attrib_quick attrib_send_receive attrib_byte attrib_word attrib_block : AccessAttrib
  attrib_process_call attrib_block_process_call : AccessAttrib

pub data AccessType : Type 0 where
  any_acc byte_acc word_acc d_word_acc q_word_acc : AccessType
  buffer_acc : AccessAttrib → AccessType

pub data UpdateRule : Type 0 where
  preserve write_as_ones write_as_zeros : UpdateRule

pub record FieldFlags : Type 0 where
  access_type : AccessType
  lock_rule : Bool
  update_rule : UpdateRule

pub record Accessor : Type 0 where
  read : ℕ
  write : ℕ

pub record Method : Type 0 where
  pub arg_count : ℕ
  pub serialized : Bool
  pub sync_level : ℕ
  pub term_list : Bytes

-- a device or a thermal zone
pub record Device : Type 0 where
  obj_list : List Bytes
  notify_methods : List (ℕ × List ℕ)

pub record Processor : Type 0 where
  proc_id : ℕ
  p_blk : Option ℕ
  obj_list : List Bytes
  notify_methods : List (ℕ × List ℕ)

pub record PowerResource : Type 0 where
  system_level : ℕ
  resource_order : ℕ
  obj_list : List Bytes

mutual
  pub data AmlValue : Type 0 where
    nothing : AmlValue
    uninitialized : AmlValue
    alias : Bytes → AmlValue
    buffer : Bytes → AmlValue
    -- source_buf, index and length
    buffer_field : AmlValue → AmlValue → AmlValue → AmlValue
    ddb_handle : List Bytes → Bytes × Bytes × Bytes → AmlValue
    debug_object : AmlValue
    device : Device → AmlValue
    event : ℕ → AmlValue
    -- selector, connection, flags, offset and length
    field_unit : FieldSelector → AmlValue → FieldFlags → ℕ → ℕ → AmlValue
    integer integer_constant : ℕ → AmlValue
    method : Method → AmlValue
    -- the sync level and the owner
    mutex : ℕ → Option ℕ → AmlValue
    object_reference : ObjectReference → AmlValue
    -- region, offset, len, accessor and accessed_by
    operation_region : RegionSpace → AmlValue → AmlValue → Accessor → Option ℕ → AmlValue
    packaged : Values → AmlValue
    string : Bytes → AmlValue
    power_resource : PowerResource → AmlValue
    processor : Processor → AmlValue
    raw_data_buffer : Bytes → AmlValue
    thermal_zone : Device → AmlValue

  pub data Values : Type 0 where
    nil : Values
    cons : AmlValue → Values → Values

  pub data ObjectReference : Type 0 where
    arg_obj local_obj : ℕ → ObjectReference
    object : Bytes → ObjectReference
    index : AmlValue → AmlValue → ObjectReference

  pub data FieldSelector : Type 0 where
    region : Bytes → FieldSelector
    bank : Bytes → Bytes → AmlValue → FieldSelector
    index_pair : Bytes → Bytes → FieldSelector

-- The text of an error is left out.
pub data AmlError : Type 0 where
  parse_error invalid_op_code value_error deferred_load hard_fatal : AmlError
  fatal_error : ℕ → ℕ → AmlValue → AmlError

pub data ExecutionState : Type 0 where
  executing continues breaks : ExecutionState
  returns : AmlValue → ExecutionState

pub record AmlExecutionContext : Type 0 where
  pub scope : Bytes
  pub local_vars : List AmlValue
  pub arg_vars : List AmlValue
  pub state : ExecutionState
  pub namespace_delta : List Bytes
  pub ctx_id : ℕ
  pub sync_level : ℕ
