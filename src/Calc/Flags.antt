-- ===== src/Calc/Flags.antt =====
-- calc/direct_memory.go, heap.go, metaspace.go, reserved_code_cache.go, stack.go, head_room.go: the
-- JVM flags that set a memory region. A flag is a prefix with a size behind it.
pub mod Reading
use jvm_vendors.Base.{◌*◌, Bool, Option, none, some, ◌++◌, if◌then◌else◌}
use jvm_vendors.Base.Int.{ℤ, pos}
use jvm_vendors.Base.Result.{Result, ok, err, map_err}
use jvm_vendors.Base.Text.{Text, codes, trim_space, strip_prefix, is_some}
use jvm_vendors.Calc.Size.{Size, SizeError, match_size, parse_size, size_string, default, mebi}

pub data FlagError : Type 0 where
  no_flag : FlagError
  bad_size : SizeError → FlagError

sized : Option Text → Option Text
sized none = none
sized (some rest) = if is_some (match_size rest) then some rest else none

-- The group of ^prefix(SizePattern)$.
unfoldable pub flag_group : Text → Text → Option Text
unfolding sized
flag_group prefix s = sized (strip_prefix prefix s)

parse_group : Option Text → Result FlagError Size
parse_group none = err no_flag
parse_group (some rest) = map_err bad_size (parse_size rest)

-- A flag is recognised without the spaces around it, and read with them.
unfoldable pub match_flag : Text → Text → Bool
match_flag prefix s = is_some (flag_group prefix (trim_space s))

unfoldable pub parse_flag : Text → Text → Result FlagError Size
unfolding parse_group
parse_flag prefix s = parse_group (flag_group prefix s)

abbrev pub direct_memory_prefix : Text
direct_memory_prefix = codes "-XX:MaxDirectMemorySize="

unfoldable pub match_direct_memory : Text → Bool
match_direct_memory s = match_flag direct_memory_prefix s

unfoldable pub parse_direct_memory : Text → Result FlagError Size
parse_direct_memory s = parse_flag direct_memory_prefix s

unfoldable pub direct_memory_string : Size → Text
direct_memory_string d = direct_memory_prefix ++ size_string d.value

abbrev pub default_direct_memory : Size
default_direct_memory = record { value = pos (10 * mebi); provenance = default }

abbrev pub heap_prefix : Text
heap_prefix = codes "-Xmx"

unfoldable pub match_heap : Text → Bool
match_heap s = match_flag heap_prefix s

unfoldable pub parse_heap : Text → Result FlagError Size
parse_heap s = parse_flag heap_prefix s

unfoldable pub heap_string : Size → Text
heap_string h = heap_prefix ++ size_string h.value

abbrev pub metaspace_prefix : Text
metaspace_prefix = codes "-XX:MaxMetaspaceSize="

unfoldable pub match_metaspace : Text → Bool
match_metaspace s = match_flag metaspace_prefix s

unfoldable pub parse_metaspace : Text → Result FlagError Size
parse_metaspace s = parse_flag metaspace_prefix s

unfoldable pub metaspace_string : Size → Text
metaspace_string m = metaspace_prefix ++ size_string m.value

abbrev pub reserved_code_cache_prefix : Text
reserved_code_cache_prefix = codes "-XX:ReservedCodeCacheSize="

unfoldable pub match_reserved_code_cache : Text → Bool
match_reserved_code_cache s = match_flag reserved_code_cache_prefix s

unfoldable pub parse_reserved_code_cache : Text → Result FlagError Size
parse_reserved_code_cache s = parse_flag reserved_code_cache_prefix s

unfoldable pub reserved_code_cache_string : Size → Text
reserved_code_cache_string r = reserved_code_cache_prefix ++ size_string r.value

abbrev pub default_reserved_code_cache : Size
default_reserved_code_cache = record { value = pos (240 * mebi); provenance = default }

abbrev pub stack_prefix : Text
stack_prefix = codes "-Xss"

unfoldable pub match_stack : Text → Bool
match_stack s = match_flag stack_prefix s

unfoldable pub parse_stack : Text → Result FlagError Size
parse_stack s = parse_flag stack_prefix s

unfoldable pub stack_string : Size → Text
stack_string s = stack_prefix ++ size_string s.value

abbrev pub default_stack : Size
default_stack = record { value = pos (1 * mebi); provenance = default }

unfoldable pub head_room_string : Size → Text
head_room_string h = size_string h.value
