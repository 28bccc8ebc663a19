-- ===== src/Wire/VarData.antt =====
-- The variable-length member of a message object (err_msg, msg_content, pbtype, pbdata): a pointer
-- that may be NULL, with the flag `needfree` of the object that holds it.
use message_bus_all_in_one_f.Common.{Bool, true, false, Option, none, some, List, ℕ, if◌then◌else◌}

pub record VarData : Type 0 where
  pub content : Option (List ℕ)
  pub needfree : Bool

-- FreeVarData: an owned buffer is deleted and the pointer cleared; the flag stays.
unfoldable pub free_var_data : VarData → VarData
free_var_data v = if v.needfree then record v { content = none } else v

-- SetVarData: the caller keeps the buffer.
unfoldable pub set_var_data : VarData → List ℕ → VarData
unfolding free_var_data
set_var_data v buffer = record (free_var_data v) { content = some buffer; needfree = false }

-- What UnPackBody does before and after it reads: FreeVarData, needfree = true, and a new buffer.
unfoldable pub replace_var_data : VarData → List ℕ → VarData
unfolding free_var_data
replace_var_data v buffer = record (free_var_data v) { needfree = true; content = some buffer }

-- The constructors' state: a NULL pointer, not owned.
abbrev pub no_var_data : VarData
no_var_data = record { content = none; needfree = false }
