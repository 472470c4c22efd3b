-- ===== src/Bind.antt =====
-- src/bind.rs: the start of BIND. Its process is a task of src/main.rs, with the tasks.
use bancuh_dns.Prelude.{Bool, true, List, [], ◌∷◌, Result}
use bancuh_dns.Text.{Text, codes}

-- `tokio::process::Command`, as it is built here.
pub record Command : Type 0 where
  pub program : Text
  pub args : List Text
  pub kill_on_drop : Bool

-- `spawn_bind`, over `spawn` of the system.
unfoldable pub spawn_bind : {E Child : Type 0} → (Command → Result E Child) → Result E Child
spawn_bind spawn =
    spawn (record { program = codes "named"; args = codes "-f" ∷ []; kill_on_drop = true })
